-- ===== src/HttpSig/Message.antt =====
-- crates/httpsig/src/message.rs: covered components, and the messages their values come from.
use wimsey.Common.{
  ℕ, zero, suc, Bool, true, false, ◌||◌, Option, none, some, List, [], ◌∷◌, ◌++◌, Result, ok, err,
  ◌>>=◌, ok_or, and_then, ◌==◌, if◌then◌else◌, length,
}
use mathlib.Core.Option
use wimsey.Text.{
  Str, Bytes, codes, str_eq, eq_ignore_ascii_case, to_ascii_lowercase, strip_prefix, strip_suffix,
  trim, join, to_decimal,
}
use wimsey.HttpSig.Error.{HttpSigError, missing_component, unsupported_component, parse}

pub data Component : Type 0 where
  method authority path query request_target status : Component
  req : Component → Component
  header : Str → Component

-- `==` on components: header names compare without their case.
unfoldable pub component_eq : Component → Component → Bool
component_eq method method = true
component_eq authority authority = true
component_eq path path = true
component_eq query query = true
component_eq request_target request_target = true
component_eq status status = true
component_eq (req a) (req b) = component_eq a b
component_eq (header a) (header b) = eq_ignore_ascii_case a b
component_eq _ _ = false

-- `components.contains(&component)`
unfoldable pub contains : List Component → Component → Bool
contains [] c = false
contains (x ∷ xs) c = component_eq x c || contains xs c

-- `Component::header`
unfoldable pub header_named : Str → Component
header_named name = header (to_ascii_lowercase name)

abbrev pub quoted : Str → Str
quoted s = b'"' ∷ (s ++ b'"' ∷ [])

unfoldable pub quoted_id : Component → Str
quoted_id method = codes "\"@method\""
quoted_id authority = codes "\"@authority\""
quoted_id path = codes "\"@path\""
quoted_id query = codes "\"@query\""
quoted_id request_target = codes "\"@request-target\""
quoted_id status = codes "\"@status\""
quoted_id (req inner) = quoted_id inner ++ codes ";req"
quoted_id (header name) = quoted name

-- `token.strip_prefix('"').and_then(|t| t.strip_suffix('"'))`
abbrev pub unquote : Str → Option Str
unquote token = and_then (strip_prefix token (codes "\"")) (λ t. strip_suffix t (codes "\""))

abbrev pub starts_with_at : Str → Bool
starts_with_at [] = false
starts_with_at (c ∷ s) = c == b'@'

-- The component that the text between the quotes names.
unfoldable pub named : Str → Result HttpSigError Component
named inner =
    if str_eq inner (codes "@method")
    then ok method
    else if str_eq inner (codes "@authority")
    then ok authority
    else if str_eq inner (codes "@path")
    then ok path
    else if str_eq inner (codes "@query")
    then ok query
    else if str_eq inner (codes "@request-target")
    then ok request_target
    else if str_eq inner (codes "@status")
    then ok status
    else if starts_with_at inner
    then err (unsupported_component inner)
    else ok (header (to_ascii_lowercase inner))

unfoldable pub from_plain_id : Str → Result HttpSigError Component
unfolding named
from_plain_id token = do
  inner ← ok_or (unquote token) (parse (codes "not a quoted identifier: " ++ token))
  named inner

-- Each `;req` taken off the end is one recursive call; the fuel is more than their number.
unfoldable pub from_quoted_id_in : ℕ → Str → Result HttpSigError Component
unfolding from_plain_id
from_quoted_id_in zero token = from_plain_id token
from_quoted_id_in (suc fuel) token = elim (strip_suffix token (codes ";req")) [
  | some base ↦ (do inner ← from_quoted_id_in fuel base; ok (req inner))
  | none ↦ from_plain_id token
]

-- `Component::from_quoted_id`
unfoldable pub from_quoted_id : Str → Result HttpSigError Component
unfolding from_quoted_id_in
from_quoted_id token = from_quoted_id_in (length token) token

abbrev pub Headers : Type 0
Headers = List (Str × Str)

pub record HttpRequest : Type 0 where
  pub method : Str
  pub authority : Str
  pub path : Str
  pub query : Option Str
  pub headers : Headers

pub record HttpResponse : Type 0 where
  pub status : ℕ
  pub headers : Headers

pub record HttpExchange : Type 0 where
  pub response : HttpResponse
  pub request : HttpRequest

-- The trimmed values of the fields of that name.
unfoldable pub header_values : Headers → Str → List Str
header_values [] name = []
header_values ((n, v) ∷ rest) name =
    let values = header_values rest name in
    if eq_ignore_ascii_case n name then trim v ∷ values else values

abbrev join_values : Str → List Str → Result HttpSigError Str
join_values name [] = err (missing_component name)
join_values name (v ∷ vs) = ok (join (codes ", ") (v ∷ vs))

unfoldable pub header_value : Headers → Str → Result HttpSigError Str
unfolding header_values
header_value headers name = join_values name (header_values headers name)

abbrev or_slash : Str → Str
or_slash [] = codes "/"
or_slash (c ∷ s) = c ∷ s

unfoldable pub request_target_of : HttpRequest → Str
request_target_of r = elim r.query [
  | some q ↦ or_slash r.path ++ (b'?' ∷ q)
  | none ↦ or_slash r.path
]

-- `HttpRequest::component_value`
unfoldable pub request_value : HttpRequest → Component → Result HttpSigError Str
unfolding header_value request_target_of
request_value r method = ok r.method
request_value r authority = ok (to_ascii_lowercase r.authority)
request_value r path = ok (or_slash r.path)
request_value r query = ok (b'?' ∷ Option.get_or r.query [])
request_value r request_target = ok (request_target_of r)
request_value r (header name) = header_value r.headers name
request_value r status = err (unsupported_component (quoted_id status))
request_value r (req inner) = err (unsupported_component (quoted_id (req inner)))

-- `HttpExchange`'s `component_value`
unfoldable pub exchange_value : HttpExchange → Component → Result HttpSigError Str
unfolding header_value request_value
exchange_value e status = ok (to_decimal e.response.status)
exchange_value e (req inner) = request_value e.request inner
exchange_value e (header name) = header_value e.response.headers name
exchange_value e method = err (unsupported_component (quoted_id method))
exchange_value e authority = err (unsupported_component (quoted_id authority))
exchange_value e path = err (unsupported_component (quoted_id path))
exchange_value e query = err (unsupported_component (quoted_id query))
exchange_value e request_target = err (unsupported_component (quoted_id request_target))

-- The trait `ComponentSource`: what a signature base reads covered values from.
pub record ComponentSource : Type 0 where
  pub component_value : Component → Result HttpSigError Str

unfoldable pub of_request : HttpRequest → ComponentSource
of_request r = record { component_value = request_value r }

unfoldable pub of_exchange : HttpExchange → ComponentSource
of_exchange e = record { component_value = exchange_value e }

-- `content_digest_sha256` and `verify_content_digest`, over the digest and the encoding.
module _ (sha256 : Bytes → Bytes) (encode : Bytes → Str) where
  unfoldable pub content_digest_sha256 : Bytes → Str
  content_digest_sha256 body = codes "sha-256=:" ++ (encode (sha256 body) ++ codes ":")

  unfoldable pub verify_content_digest : Str → Bytes → Bool
  verify_content_digest header_value body = str_eq header_value (content_digest_sha256 body)
