-- ===== src/Tests/Proofs.antt =====
-- A WPT that binds a WIT, a Txn-Token and one more token, issued and verified with the concrete
-- primitives; the hash keeps the length of what it hashes.
use wimsey.Common.{
  ℕ, ◌%◌, ◌^◌, ◌≤◌, ◌≡◌, refl, subst, All, true, false, Option, some, List, [], ◌∷◌, Result, ok,
  err, arith, leb, length,
}
use wimsey.Text.{
  Str, Bytes, codes, len, str_eq, as_bytes, encode_char, to_ascii_lowercase, lower, trim_matches,
  trim_start_matches, trim_end_matches,
}
use wimsey.Jose.Key
use wimsey.Jose.Key.{SigningKey, VerifyingKey}
use wimsey.Jws.Json.{Json, IsJson}
use wimsey.Tests.Toy.{toy, toy-IsCorrectCrypto, unary, unary-IsBase64, write}
use wimsey.Tests.Codec.{Codec, number, text, list, option, pair, json_of, json_of-IsJson}
use wimsey.Wpt.Error.{WptError}
use wimsey.Wpt.Token
use wimsey.Wpt.Token.{
  WptClaims, VerifiedWpt, sha256_b64u, other_token_entry, wit_thumbprint, txn_token_thumbprint,
}
use wimsey.Wpt.Checks.{IsBound, IsEntry}
use wimsey.Wpt.Accepts.{IsVerifiedWpt, wpt_verify_iff}
use wimsey.Wpt.Issue.{wpt_verify-issue}

abbrev hash : Bytes → Bytes
hash x = length x % 2 ^ 8 ∷ []

abbrev decode_slice : ℕ → Str → Option Bytes
decode_slice n s = unary.decode s

abbrev header_codec : Codec (Str × (Str × Option (List Str)))
header_codec = pair text (pair text (option (list text)))

abbrev header_json : Json Token.Header
header_json =
    json_of (λ h. (h.typ, (h.alg, h.crit))) (λ v. record { typ = v.0; alg = v.1.0; crit = v.1.1 })
      header_codec

header_json-IsJson : IsJson header_json
header_json-IsJson = json_of-IsJson _ _ header_codec (λ h. refl)

abbrev claims_codec : Codec (Str × (ℕ × (Str × (Str × (Option Str × Option (List (Str × Str)))))))
claims_codec =
    pair text
      (pair number (pair text (pair text (pair (option text) (option (list (pair text text)))))))

abbrev claims_json : Json WptClaims
claims_json =
    json_of (λ c. (c.aud, (c.exp, (c.jti, (c.wth, (c.tth, c.oth))))))
      (λ v. record {
        aud = v.0;
        exp = v.1.0;
        jti = v.1.1.0;
        wth = v.1.1.1.0;
        tth = v.1.1.1.1.0;
        oth = v.1.1.1.1.1;
      })
      claims_codec

claims_json-IsJson : IsJson claims_json
claims_json-IsJson = json_of-IsJson _ _ claims_codec (λ c. refl)

abbrev pop_key : SigningKey toy
pop_key = SigningKey.ed25519 false

abbrev pop_public : VerifyingKey toy
pop_public = VerifyingKey.ed25519 false

abbrev validation : Token.Validation
validation =
    Token.with_other_token
      (Token.with_max_lifetime
        (Token.with_txn_token (Token.new 60 (codes "a/b") (codes "w")) (codes "t")) 50)
      (codes "X") (codes " v ")

abbrev bound_claims : WptClaims
bound_claims = record {
  aud = codes "a/b";
  exp = 100;
  jti = codes "j";
  wth = wit_thumbprint hash unary (codes "w");
  tth = some (txn_token_thumbprint hash unary (codes "t"));
  oth = some ((codes "x", (other_token_entry hash unary (codes "x") (codes " v ")).1) ∷ []);
}

abbrev wpt_of : Result WptError Str → Str
wpt_of (ok s) = s
wpt_of (err e) = []

abbrev wpt : Str
wpt = wpt_of (Token.issue {c = toy} unary header_json claims_json bound_claims pop_key)

issued : Token.issue {c = toy} unary header_json claims_json bound_claims pop_key ≡ ok wpt
unfolding Token.issue
issued = refl

presented :
    All
      (IsEntry hash unary validation.other_tokens)
      ((codes "x", (other_token_entry hash unary (codes "x") (codes " v ")).1) ∷ [])
unfolding Token.get Token.insert to_ascii_lowercase str_eq lower
presented = ((codes " v ", refl, refl), tt)

bound : IsBound hash unary bound_claims validation
bound = record {
  unexpired = (omega arith, omega arith);
  lifetime = λ max e. let same : 50 ≡ max = cc in omega (arith, same);
  audience = refl;
  wit = refl;
  txn_token = refl;
  others = λ oth e.
      let same : (codes "x", (other_token_entry hash unary (codes "x") (codes " v ")).1) ∷ []
          ≡ oth =
        cc in
      subst (All (IsEntry hash unary validation.other_tokens)) same presented;
}

leb_sound : (a b : ℕ) → leb a b ≡ true → a ≤ b
leb_sound a b h = ground arith

fits : leb (len wpt) Token.max_token_len ≡ true
unfolding Token.issue len Key.sign as_bytes encode_char write sha256_b64u other_token_entry
    trim_matches trim_start_matches trim_end_matches
fits = refl

wpt_verify-issue_example :
    Token.verify {c = toy} hash unary decode_slice header_json claims_json wpt pop_public validation
    ≡ ok (record { claims = bound_claims })
wpt_verify-issue_example =
    wpt_verify-issue toy-IsCorrectCrypto hash unary unary-IsBase64 decode_slice
      (λ x e. unary-IsBase64.decode-encode x) header_json header_json-IsJson claims_json
      claims_json-IsJson bound_claims pop_key validation wpt bound issued
      (leb_sound (len wpt) Token.max_token_len fits)

wpt_verify_iff_example :
    IsVerifiedWpt {c = toy} hash unary decode_slice header_json claims_json wpt pop_public
      validation
      (record { claims = bound_claims })
wpt_verify_iff_example =
    (wpt_verify_iff {c = toy} hash unary decode_slice header_json claims_json wpt pop_public
        validation (record { claims = bound_claims })).0
      wpt_verify-issue_example
