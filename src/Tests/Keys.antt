-- ===== src/Tests/Keys.antt =====
-- crates/jose on keys of the toy primitives.
use wimsey.Common.{◌≡◌, ◌↔◌, refl, true, some, ok, err}
use wimsey.Text.{codes, to_ascii_lowercase, lower}
use wimsey.Jose.Algorithm
use wimsey.Jose.Algorithm.{
  Algorithm, ed_dsa, es256, JoseError, forbidden_alg, is_forbidden_alg, as_str,
}
use wimsey.Jose.Key.{SigningKey, VerifyingKey, verifying_key, key_eq}
use wimsey.Jose.Jwk.{
  to_public, from_verifying_key, to_verifying_key, from_signing_key, to_signing_key,
}
use wimsey.Jose.Accepts.{
  IsForbidden, here, there, forbidden_names, parse-IsForbidden_iff,
  to_verifying_key-from_verifying_key, to_signing_key-from_signing_key, to_verifying_key-alg,
  to_signing_key-halves,
}
use wimsey.Tests.Toy.{toy, toy-IsCorrectCrypto, unary, unary-IsBase64}

abbrev key : SigningKey toy
key = SigningKey.p256 true

mixed_case : IsForbidden (codes "Hs256") forbidden_names
unfolding to_ascii_lowercase lower
mixed_case = there (here refl)

mixed_case_refused : Algorithm.parse (codes "Hs256") ≡ err (forbidden_alg (codes "Hs256"))
mixed_case_refused = (parse-IsForbidden_iff (codes "Hs256")).1 mixed_case

parse-IsForbidden_iff_example :
    (Algorithm.parse (codes "Hs256") ≡ err (forbidden_alg (codes "Hs256")))
    ↔ IsForbidden (codes "Hs256") forbidden_names
parse-IsForbidden_iff_example = parse-IsForbidden_iff (codes "Hs256")

key_decodes :
    to_verifying_key unary (from_verifying_key unary (verifying_key key)) ≡ ok (verifying_key key)
key_decodes =
    to_verifying_key-from_verifying_key unary toy-IsCorrectCrypto unary-IsBase64 (verifying_key key)

to_verifying_key-from_verifying_key_example :
    to_verifying_key unary (from_verifying_key unary (verifying_key key)) ≡ ok (verifying_key key)
to_verifying_key-from_verifying_key_example =
    to_verifying_key-from_verifying_key unary toy-IsCorrectCrypto unary-IsBase64 (verifying_key key)

to_signing_key-from_signing_key_example : to_signing_key unary (from_signing_key unary key) ≡ ok key
to_signing_key-from_signing_key_example =
    to_signing_key-from_signing_key unary toy-IsCorrectCrypto unary-IsBase64 key

to_verifying_key-alg_example :
    (from_verifying_key unary (verifying_key key)).alg ≡ some (as_str es256)
to_verifying_key-alg_example =
    to_verifying_key-alg unary (from_verifying_key unary (verifying_key key)) key_decodes

to_signing_key-halves_example :
    (p : VerifyingKey toy) × (to_verifying_key unary (to_public (from_signing_key unary key))
      ≡ ok p)
    × (key_eq (verifying_key key) p ≡ true)
to_signing_key-halves_example =
    to_signing_key-halves unary (from_signing_key unary key) to_signing_key-from_signing_key_example
