-- ===== src/HttpSig/Profile.antt =====
-- crates/httpsig/src/signature.rs: the rules of the WIMSE profile on parameters and components.
use wimsey.Common.{
  Bool, true, false, not, Option, none, some, List, [], ◌∷◌, ◌++◌, Result, ok, err, ◌>>◌, ensure,
  is_some, is_none, any, if◌then◌else◌,
}
use wimsey.Text.{Str, codes, str_eq, eq_ignore_ascii_case}
use wimsey.HttpSig.Error.{
  HttpSigError, missing_parameter, forbidden_parameter, forbidden_component, wrong_tag,
}
use wimsey.HttpSig.Message.{
  Component, method, authority, path, query, status, req, header_named, quoted_id, contains,
  Headers, HttpRequest, HttpExchange, ComponentSource,
}
use wimsey.HttpSig.Params.{SignatureParams}
use wimsey.HttpSig.Member.{wimse_tag}

-- `CONNECT`
abbrev pub connect : Str
connect = codes "CONNECT"

-- The `match` on the tag.
abbrev pub check_tag : Option Str → Result HttpSigError Unit
check_tag none = err (missing_parameter (codes "tag"))
check_tag (some tag) = ensure (str_eq tag wimse_tag) (wrong_tag tag)

unfoldable pub check_request_profile : SignatureParams → Result HttpSigError Unit
check_request_profile params = do
  ensure (is_none params.keyid) (forbidden_parameter (codes "keyid"))
  ensure (is_none params.alg) (forbidden_parameter (codes "alg"))
  ensure (is_some params.created) (missing_parameter (codes "created"))
  ensure (is_some params.expires) (missing_parameter (codes "expires"))
  ensure (is_some params.nonce) (missing_parameter (codes "nonce"))
  check_tag params.tag
  ensure (is_some params.wimse_aud) (missing_parameter (codes "wimse-aud"))

unfoldable pub check_response_profile : SignatureParams → Result HttpSigError Unit
check_response_profile params = do
  ensure (is_none params.keyid) (forbidden_parameter (codes "keyid"))
  ensure (is_none params.alg) (forbidden_parameter (codes "alg"))
  ensure (is_some params.created) (missing_parameter (codes "created"))
  ensure (is_some params.expires) (missing_parameter (codes "expires"))
  ensure (is_some params.nonce) (missing_parameter (codes "nonce"))
  check_tag params.tag
  ensure (is_none params.wimse_aud) (forbidden_parameter (codes "wimse-aud"))
  ensure (is_some params.wimse_req_nonce) (missing_parameter (codes "wimse-req-nonce"))

abbrev pub has_header : Headers → Str → Bool
has_header headers name = any (λ h. eq_ignore_ascii_case h.0 name) headers

-- The loop over names that pushes each one carried.
unfoldable pub carried : Headers → List Str → List Component
carried headers [] = []
carried headers (name ∷ names) =
    let rest = carried headers names in
    if has_header headers name then header_named name ∷ rest else rest

abbrev pub request_headers : List Str
request_headers =
    codes "content-type"
    ∷ codes "content-digest"
    ∷ codes "authorization"
    ∷ codes "txn-token"
    ∷ codes "workload-identity-token"
    ∷ []

unfoldable pub request_components : HttpRequest → List Component
unfolding carried
request_components r =
    (if str_eq r.method connect then method ∷ authority ∷ [] else method ∷ path ∷ query ∷ [])
    ++ carried r.headers request_headers

abbrev pub response_headers : List Str
response_headers =
    codes "content-type" ∷ codes "content-digest" ∷ codes "workload-identity-token" ∷ []

unfoldable pub response_components : HttpExchange → List Component
unfolding carried
response_components e =
    (if str_eq e.request.method connect
      then status ∷ req method ∷ req authority ∷ []
      else status ∷ req method ∷ req path ∷ req query ∷ [])
    ++ carried e.response.headers response_headers

abbrev pub target : Bool → Component → Component
target true c = req c
target false c = c

abbrev pub is_connect : Result HttpSigError Str → Bool
is_connect (ok m) = str_eq m connect
is_connect (err e) = false

-- `check_connect_components`
unfoldable pub check_connect_components :
    ComponentSource → List Component → Bool → Result HttpSigError Unit
check_connect_components message components response =
    let forbid = (do
      ensure (not (contains components (target response path)))
          (forbidden_component (quoted_id (target response path)))
      ensure (not (contains components (target response query)))
          (forbidden_component (quoted_id (target response query)))) in
    if not (is_connect (message.component_value (target response method))) then ok tt else forbid
