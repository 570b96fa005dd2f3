-- ===== src/HttpSig/Member.antt =====
-- crates/httpsig/src/signature.rs: one `Signature-Input` member, and the choice of a member.
use wimsey.Common.{
  ℕ, Bool, true, false, ◌&&◌, ◌||◌, Option, none, some, List, [], ◌∷◌, ◌++◌, any, drop, Result, ok,
  err, ◌>>=◌, ◌>>◌, ensure, ok_or, and_then, ◌==◌, if◌then◌else◌, length,
}
use wimsey.Text.{
  Str, Bytes, codes, str_eq, split_once, strip_prefix, strip_suffix, trim, split_whitespace,
  parse_u64, is_empty,
}
use wimsey.Jose.Primitives.{Base64}
use wimsey.HttpSig.Error.{
  HttpSigError, parse, label_mismatch, malformed_signature, no_wimse_signature,
  ambiguous_wimse_signature,
}
use wimsey.HttpSig.Message.{Component, from_quoted_id}
use wimsey.HttpSig.Params.{SignatureParams, default}
use wimsey.HttpSig.Field.{
  find_unquoted, split_unquoted_semicolons, split_dictionary, parse_sf_string,
}

-- `WIMSE_TAG`
abbrev pub wimse_tag : Str
wimse_tag = codes "wimse-workload-to-workload"

unfoldable pub parse_sf_boolean : Str → Result HttpSigError Bool
parse_sf_boolean raw =
    if str_eq raw (codes "?1")
    then ok true
    else if str_eq raw (codes "?0")
    then ok false
    else err (parse (codes "not a boolean: " ++ raw))

unfoldable pub parse_int : Str → Result HttpSigError ℕ
parse_int raw = ok_or (parse_u64 (trim raw)) (parse (codes "not an integer: " ++ raw))

-- The `match name` of `parse_params`.
unfoldable pub set_param : SignatureParams → Str → Str → Result HttpSigError SignatureParams
unfolding parse_int parse_sf_boolean
set_param p name raw =
    if str_eq name (codes "created")
    then (do n ← parse_int raw; ok (record p { created = some n }))
    else if str_eq name (codes "expires")
    then (do n ← parse_int raw; ok (record p { expires = some n }))
    else if str_eq name (codes "keyid")
    then (do s ← parse_sf_string raw; ok (record p { keyid = some s }))
    else if str_eq name (codes "alg")
    then (do s ← parse_sf_string raw; ok (record p { alg = some s }))
    else if str_eq name (codes "nonce")
    then (do s ← parse_sf_string raw; ok (record p { nonce = some s }))
    else if str_eq name (codes "tag")
    then (do s ← parse_sf_string raw; ok (record p { tag = some s }))
    else if str_eq name (codes "wimse-aud")
    then (do s ← parse_sf_string raw; ok (record p { wimse_aud = some s }))
    else if str_eq name (codes "wimse-sign-response")
    then (do b ← parse_sf_boolean raw; ok (record p { wimse_sign_response = some b }))
    else if str_eq name (codes "wimse-req-nonce")
    then (do s ← parse_sf_string raw; ok (record p { wimse_req_nonce = some s }))
    else ok p

-- One trimmed part that is not empty.
unfoldable pub parse_part : SignatureParams → Str → Result HttpSigError SignatureParams
unfolding set_param
parse_part p part = elim (split_once b'=' part) [
  | none ↦ ok (
      if str_eq part (codes "wimse-sign-response")
      then record p { wimse_sign_response = some true }
      else p)
  | some (name, raw) ↦ set_param p (trim name) (trim raw)
]

unfoldable pub parse_parts : SignatureParams → List Str → Result HttpSigError SignatureParams
unfolding parse_part
parse_parts p [] = ok p
parse_parts p (part ∷ parts) = do
  q ← (if is_empty (trim part) then ok p else parse_part p (trim part))
  parse_parts q parts

unfoldable pub parse_params : Str → SignatureParams → Result HttpSigError SignatureParams
unfolding parse_parts
parse_params rest p = parse_parts p (split_unquoted_semicolons rest)

pub record InputMember : Type 0 where
  pub label : Str
  pub components : List Component
  pub params : SignatureParams
  pub params_value : Str

unfoldable pub parse_components : List Str → Result HttpSigError (List Component)
parse_components [] = ok []
parse_components (token ∷ tokens) = do
  c ← from_quoted_id token
  cs ← parse_components tokens
  ok (c ∷ cs)

abbrev pub starts_with_paren : Str → Bool
starts_with_paren [] = false
starts_with_paren (c ∷ s) = c == b'('

-- The inner list without its parentheses, and what follows it.
unfoldable pub split_inner : Str → Result HttpSigError (Str × Str)
split_inner rest = do
  ensure (starts_with_paren rest) (parse (codes "inner list must start with `(`"))
  parts ← ok_or (find_unquoted rest b')') (parse (codes "missing `)` in inner list"))
  ok (drop 1 parts.0, parts.1)

unfoldable pub parse_input_member : Str → Str → Result HttpSigError InputMember
unfolding split_inner parse_components parse_params
parse_input_member label member = do
  parts ← split_inner (trim member)
  components ← parse_components (split_whitespace parts.0)
  params ← parse_params parts.1 default
  ok (record {
    label = label;
    components = components;
    params = params;
    params_value = trim member;
  })

unfoldable pub find_label : Str → List (Str × Str) → Option (Str × Str)
find_label label [] = none
find_label label (m ∷ ms) = if str_eq m.0 label then some m else find_label label ms

-- The 64 bytes of the `Signature` member with this label.
unfoldable pub parse_signature : Base64 → Str → Str → Result HttpSigError Bytes
parse_signature standard value label = do
  members ← split_dictionary value
  member ← ok_or (find_label label members) label_mismatch
  b64 ←
      ok_or (and_then (strip_prefix (trim member.1) (codes ":")) (λ t. strip_suffix t (codes ":")))
        (parse (codes "byte sequence must be wrapped in `:`"))
  bytes ← ok_or (standard.decode b64) malformed_signature
  ensure (length bytes == 64) malformed_signature
  ok bytes

-- `parse_sf_string(raw).is_ok_and(|tag| tag == WIMSE_TAG)`
abbrev pub is_wimse_string : Result HttpSigError Str → Bool
is_wimse_string (ok tag) = str_eq tag wimse_tag
is_wimse_string (err e) = false

abbrev pub is_tag_part : Option (Str × Str) → Bool
is_tag_part none = false
is_tag_part (some (name, raw)) =
    str_eq (trim name) (codes "tag") && is_wimse_string (parse_sf_string (trim raw))

unfoldable pub has_wimse_tag : Str → Bool
has_wimse_tag rest = elim (find_unquoted (trim rest) b')') [
  | none ↦ false
  | some (inner, after) ↦
      any (λ part. is_tag_part (split_once b'=' part)) (split_unquoted_semicolons after)
]

abbrev pub tagged_members : List (Str × Str) → List (Str × Str)
tagged_members [] = []
tagged_members (m ∷ ms) =
    let rest = tagged_members ms in if has_wimse_tag m.1 then m ∷ rest else rest

-- `(tagged.next(), tagged.next())`
abbrev pub only_tagged : List (Str × Str) → Result HttpSigError (Str × Str)
only_tagged [] = err no_wimse_signature
only_tagged (m ∷ []) = ok m
only_tagged (m ∷ n ∷ ms) = err ambiguous_wimse_signature

-- The member that the configuration chooses out of the field's members.
unfoldable pub choose_member :
    List (Str × Str) → Bool → Option Str → Result HttpSigError (Str × Str)
choose_member (m ∷ []) profile label = ok m
choose_member ms true label = only_tagged (tagged_members ms)
choose_member ms false label = do
  wanted ← ok_or label label_mismatch
  ok_or (find_label wanted ms) label_mismatch

abbrev pub label_agrees : Option Str → Str → Bool
label_agrees none label = true
label_agrees (some expected) label = str_eq expected label

-- `select_member`; `profile` is set under either WIMSE profile.
unfoldable pub select_member : Str → Bool → Option Str → Result HttpSigError InputMember
unfolding choose_member
select_member signature_input profile label = do
  members ← split_dictionary signature_input
  member ← choose_member members profile label
  ensure (profile || label_agrees label member.0) label_mismatch
  parse_input_member member.0 member.1
