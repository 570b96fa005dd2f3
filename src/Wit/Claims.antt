-- ===== src/Wit/Claims.antt =====
-- crates/wit/src/claims.rs, and the serialization of identifiers in crates/identifier/src/lib.rs.
use wimsey.Common.{ℕ, Option, none, some, Result, ok, err}
use wimsey.Text.{Str}
use wimsey.Identifier
use wimsey.Identifier.{WorkloadIdentifier}
use wimsey.Identifier.Validate.{ParseError}
use wimsey.Jose.Jwk.{Jwk}

pub record Confirmation : Type 0 where
  pub jwk : Jwk

pub record WitClaims : Type 0 where
  pub iss : Option Str
  pub sub : WorkloadIdentifier
  pub iat : Option ℕ
  pub exp : ℕ
  pub jti : Option Str
  pub cnf : Confirmation

-- The claims as JSON holds them, where the subject is a text.
pub record ClaimsText : Type 0 where
  pub iss : Option Str
  pub sub : Str
  pub iat : Option ℕ
  pub exp : ℕ
  pub jti : Option Str
  pub cnf : Confirmation

-- `WorkloadIdentifier::serialize` inside the derived `Serialize`
abbrev pub serialize : WitClaims → ClaimsText
serialize c = record {
  iss = c.iss;
  sub = c.sub.uri;
  iat = c.iat;
  exp = c.exp;
  jti = c.jti;
  cnf = c.cnf;
}

abbrev with_subject : ClaimsText → Result ParseError WorkloadIdentifier → Option WitClaims
with_subject t (err e) = none
with_subject t (ok sub) =
    some (record { iss = t.iss; sub = sub; iat = t.iat; exp = t.exp; jti = t.jti; cnf = t.cnf })

-- `WorkloadIdentifier::deserialize` inside the derived `Deserialize`
unfoldable pub deserialize : ClaimsText → Option WitClaims
deserialize t = with_subject t (Identifier.parse t.sub)
