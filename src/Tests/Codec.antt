-- ===== src/Tests/Codec.antt =====
-- A concrete writer and reader for the values that the program keeps as JSON: a value is a row of
-- numbers, and a list is headed by its length.
use wimsey.Common.{ℕ, zero, suc, ◌≡◌, refl, Option, none, some, List, [], ◌∷◌, and_then, length}
use wimsey.Text.{Str, Bytes}
use wimsey.Jws.Json.{Json, IsJson}

pub record Codec (A : Type 0) : Type 0 where
  pub put : A → Bytes → Bytes
  pub get : Bytes → Option (A × Bytes)
  pub get-put : (a : A) (rest : Bytes) → get (put a rest) ≡ some (a, rest)

abbrev take_number : Bytes → Option (ℕ × Bytes)
take_number [] = none
take_number (n ∷ rest) = some (n, rest)

abbrev pub number : Codec ℕ
number = record { put = λ n rest. n ∷ rest; get = take_number; get-put = λ n rest. refl }

module _ {A : Type 0} (a : Codec A) where
  abbrev pub put_all : List A → Bytes → Bytes
  put_all [] rest = rest
  put_all (x ∷ xs) rest = a.put x (put_all xs rest)

  abbrev pub get_all : ℕ → Bytes → Option (List A × Bytes)
  get_all zero x = some ([], x)
  get_all (suc n) x =
      let go = get_all n in
      and_then (a.get x) (λ (v, rest). and_then (go rest) (λ (vs, after). some (v ∷ vs, after)))

  pub get_all-put_all :
      (xs : List A) (rest : Bytes) → get_all (length xs) (put_all xs rest) ≡ some (xs, rest)
  get_all-put_all [] rest = refl
  get_all-put_all (x ∷ xs) rest = rw (a.get-put x (put_all xs rest), get_all-put_all xs rest) refl

  abbrev get_list : Bytes → Option (List A × Bytes)
  get_list [] = none
  get_list (n ∷ rest) = get_all n rest

  abbrev pub list : Codec (List A)
  list = record {
    put = λ xs rest. length xs ∷ put_all xs rest;
    get = get_list;
    get-put = get_all-put_all;
  }

  abbrev put_option : Option A → Bytes → Bytes
  put_option none rest = 0 ∷ rest
  put_option (some x) rest = 1 ∷ a.put x rest

  abbrev get_option : Bytes → Option (Option A × Bytes)
  get_option [] = none
  get_option (zero ∷ rest) = some (none, rest)
  get_option (suc n ∷ rest) = and_then (a.get rest) (λ (v, after). some (some v, after))

  pub get_option-put_option :
      (o : Option A) (rest : Bytes) → get_option (put_option o rest) ≡ some (o, rest)
  get_option-put_option none rest = refl
  get_option-put_option (some x) rest = rw (a.get-put x rest) refl

  abbrev pub option : Codec (Option A)
  option = record { put = put_option; get = get_option; get-put = get_option-put_option }

abbrev pub text : Codec Str
text = list number

module _ {A B : Type 0} (a : Codec A) (b : Codec B) where
  abbrev pub pair : Codec (A × B)
  pair = record {
    put = λ v rest. a.put v.0 (b.put v.1 rest);
    get = λ x.
        and_then (a.get x)
          (λ (v, rest). and_then (b.get rest) (λ (w, after). some ((v, w), after)));
    get-put = λ v rest. rw (a.get-put v.0 (b.put v.1 rest), b.get-put v.1 rest) refl;
  }

-- The JSON of a type that a product stands for.
module _ {A B : Type 0} (to : A → B) (back : B → A) (b : Codec B) where
  abbrev pub json_of : Json A
  json_of = record {
    to_vec = λ a. some (b.put (to a) []);
    from_slice = λ x. and_then (b.get x) (λ (v, rest). some (back v));
  }

  pub json_of-IsJson : ((a : A) → back (to a) ≡ a) → IsJson json_of
  json_of-IsJson round = record {
    from_slice-to_vec = λ a x written.
        let same : b.put (to a) [] ≡ x = cc in rw (← same, b.get-put (to a) [], round a) refl;
  }
