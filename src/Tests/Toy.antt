-- ===== src/Tests/Toy.antt =====
-- Concrete primitives at which the assumptions on cryptography and Base64 hold. A key is a bit; a
-- signature names its key and the length of the message.
use wimsey.Common.{
  ◌%◌, ◌^◌, ℕ, zero, suc, ◌+◌, ◌≡◌, refl, ap, ◌∙◌, Bool, true, false, not, some, [], ◌∷◌, ◌++◌,
  arith, length, replicate, all, all-append, ◌==◌, if◌then◌else◌,
}
use wimsey.Text.{Str, Bytes, str_eq, str_eq_refl}
use wimsey.Jose.Primitives.{
  SignatureScheme, Crypto, IsCorrectCrypto, Base64, IsBase64, is_base64_char,
}

abbrev bit : Bool → ℕ
bit true = 1
bit false = 0

abbrev is_one : Bytes → Bool
is_one [] = false
is_one (b ∷ bs) = b == 1

abbrev second : Bytes → Bytes
second [] = []
second (b ∷ bs) = bs

abbrev same : Bool → Bool → Bool
same true b = b
same false b = not b

abbrev toy_scheme : (Bool → Bytes) → (Bytes → Bool) → SignatureScheme
toy_scheme write read = record {
  Secret = Bool;
  Public = Bool;
  secret_to_bytes = λ k. bit k ∷ replicate 31 0;
  public_of = λ k. k;
  public_from_bytes = λ x. some (read x);
  public_to_bytes = write;
  public_eq = same;
  sign = λ k m. bit k ∷ length m % 2 ^ 8 ∷ replicate 62 0;
  verify = λ p m s. str_eq s (bit p ∷ length m % 2 ^ 8 ∷ replicate 62 0);
}

abbrev point : Bool → Bytes
point p = 4 ∷ (bit p ∷ replicate 31 0) ++ replicate 32 0

abbrev pub toy : Crypto
toy = record {
  ed25519 = toy_scheme (λ p. bit p ∷ replicate 31 0) is_one;
  ed25519_secret = is_one;
  p256 = toy_scheme point (λ x. is_one (second x));
  p256_secret = λ x. some (is_one x);
  p256_x = λ p. bit p ∷ replicate 31 0;
  p256_y = λ p. replicate 32 0;
}

same_refl : (b : Bool) → same b b ≡ true
same_refl true = refl
same_refl false = refl

is_one-bit : (b : Bool) (s : Bytes) → is_one (bit b ∷ s) ≡ b
is_one-bit true s = refl
is_one-bit false s = refl

pub toy-IsCorrectCrypto : IsCorrectCrypto toy
toy-IsCorrectCrypto = record {
  ed25519_scheme = record {
    sign_length = λ k m. refl;
    verify_sign = λ k m. str_eq_refl (bit k ∷ length m % 2 ^ 8 ∷ replicate 62 0);
    secret_length = λ k. refl;
    public_bytes = λ p. ap some (is_one-bit p (replicate 31 0));
    public_eq_refl = same_refl;
  };
  ed25519_seed = λ k. is_one-bit k (replicate 31 0);
  ed25519_public_length = λ p. refl;
  p256_scheme = record {
    sign_length = λ k m. refl;
    verify_sign = λ k m. str_eq_refl (bit k ∷ length m % 2 ^ 8 ∷ replicate 62 0);
    secret_length = λ k. refl;
    public_bytes = λ p. ap some (is_one-bit p (replicate 31 0 ++ replicate 32 0));
    public_eq_refl = same_refl;
  };
  p256_scalar = λ k. ap some (is_one-bit k (replicate 31 0));
  p256_x_length = λ p. refl;
  p256_y_length = λ p. refl;
  p256_sec1 = λ p. refl;
}

-- Each number in unary.
unfoldable pub write : Bytes → Str
write [] = []
write (n ∷ x) = replicate n b'A' ++ (b'B' ∷ write x)

unfoldable pub read : ℕ → Str → Bytes
read n [] = []
read n (c ∷ s) =
    let more = read (suc n) s in let next = read 0 s in if c == b'A' then more else n ∷ next

abbrev pub unary : Base64
unary = record { encode = write; decode = λ s. some (read 0 s) }

read-replicate : (n k : ℕ) (s : Str) → read k (replicate n b'A' ++ s) ≡ read (n + k) s
unfolding read
read-replicate zero k s = ap (λ m. read m s) (let e : k ≡ 0 + k = omega arith in e)
read-replicate (suc n) k s =
    read-replicate n (suc k) s
    ∙ ap (λ m. read m s) (let e : n + suc k ≡ suc n + k = omega arith in e)

read-write : (x : Bytes) → read 0 (write x) ≡ x
unfolding read write
read-write [] = refl
read-write (n ∷ x) =
    read-replicate n 0 (b'B' ∷ write x) ∙ (let e : n + 0 ≡ n = omega arith in rw (e, read-write x))

replicate_chars : (n : ℕ) → all is_base64_char (replicate n b'A') ≡ true
replicate_chars zero = refl
replicate_chars (suc n) = replicate_chars n

write_chars : (x : Bytes) → all is_base64_char (write x) ≡ true
unfolding write
write_chars [] = refl
write_chars (n ∷ x) =
    all-append is_base64_char (replicate n b'A') (b'B' ∷ write x)
    ∙ rw (replicate_chars n, write_chars x)

pub unary-IsBase64 : IsBase64 unary
unary-IsBase64 = record { decode-encode = λ x. ap some (read-write x); encode_chars = write_chars }
