-- ===== src/Cli/HttpSign/Fields.antt =====
-- The header fields that `run_verify` adds to those given, stated apart from the code.
use wimsey.Common.{◌++◌, false, inl, inr, Bool-cases, ◌≡◌, refl, true, Option, none, some, [], ◌∷◌}
use wimsey.Text.{lower, Str, Bytes, codes, to_ascii_lowercase}
use wimsey.Jose.Primitives.{Base64}
use wimsey.HttpSig.Message.{Headers, content_digest_sha256}
use wimsey.HttpSig.Profile.{has_header}
use wimsey.Cli.HttpSign.{with_wit, with_digest}

-- The fields given, with one behind them unless it is among them.
pub data IsExtended (field : Str) (value : Str) (given : Headers) : Headers → Type 0 where
  present : has_header given (to_ascii_lowercase field) ≡ true → IsExtended field value given given
  added :
      has_header given (to_ascii_lowercase field) ≡ false
      → IsExtended field value given (given ++ ((field, value) ∷ []))

pub with_wit-IsExtended :
    (given : Headers) (token : Str)
    → IsExtended (codes "Workload-Identity-Token") token given (with_wit given token)
unfolding with_wit to_ascii_lowercase lower
with_wit-IsExtended given token =
    elim (Bool-cases (has_header given (codes "workload-identity-token"))) [
      | inl e ↦ rw e (present e)
      | inr e ↦ rw e (added e)
    ]

module _ (sha256 : Bytes → Bytes) (standard : Base64) where
  -- The digest of the body, if there is one, is added in the same way.
  abbrev pub IsDigested : Headers → Option Bytes → Headers → Type 0
  IsDigested given none headers = headers ≡ given
  IsDigested given (some body) headers =
      IsExtended (codes "Content-Digest") (content_digest_sha256 sha256 standard.encode body) given
        headers

  pub with_digest-IsDigested :
      (given : Headers) (body : Option Bytes)
      → IsDigested given body (with_digest sha256 standard given body)
  unfolding with_digest to_ascii_lowercase lower
  with_digest-IsDigested given none = refl
  with_digest-IsDigested given (some body) =
      elim (Bool-cases (has_header given (codes "content-digest"))) [
        | inl e ↦ rw e (present e)
        | inr e ↦ rw e (added e)
      ]
