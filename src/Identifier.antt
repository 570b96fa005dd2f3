-- ===== src/Identifier.antt =====
-- crates/identifier/src/lib.rs: the workload identifier, its parser and its parts.
pub mod Validate
pub mod Grammar
pub mod Classes
pub mod Segments
pub mod Paths
pub mod Parser
pub mod Parts
pub mod Normal
pub mod Schemes
use wimsey.Common.{
  ℕ, ◌+◌, ◌-◌, Bool, true, false, not, ◌&&◌, Option, none, some, List, [], ◌∷◌, leb, Result, ok,
  err, ◌>>=◌, ◌>>◌, ensure, ok_or,
}
use mathlib.Core.Option
use wimsey.Text.{Str, codes, len, contains_char, strip_prefix, split_once, slice_from, slice_to}
use Validate.{
  Scheme, spiffe, wimse, ParseError, too_long, unsupported_scheme, has_query, has_fragment,
  has_user_info, has_port, validate_trust_domain, validate_path,
}

abbrev pub max_id_len : ℕ
max_id_len = 2048

-- `Scheme::as_str`
abbrev pub as_str : Scheme → Str
as_str spiffe = codes "spiffe"
as_str wimse = codes "wimse"

abbrev pub prefix : Scheme → Str
prefix spiffe = codes "spiffe://"
prefix wimse = codes "wimse://"

-- The text, and the byte length of the trust domain used to slice it.
pub record WorkloadIdentifier : Type 0 where
  pub uri : Str
  pub scheme : Scheme
  pub trust_domain_len : ℕ

-- `find_map` over the two schemes.
unfoldable pub find_scheme : Str → Option (Scheme × Str)
find_scheme input = elim (strip_prefix input (prefix spiffe)) [
  | some rest ↦ some (spiffe, rest)
  | none ↦ Option.map (λ rest. (wimse, rest)) (strip_prefix input (prefix wimse))
]

-- The trust domain, and the path from its first `/` on.
unfoldable pub split_path : Str → Str × Str
split_path rest = elim (split_once b'/' rest) [
  | some (td, tail) ↦ (td, b'/' ∷ tail)
  | none ↦ (rest, [])
]

-- The checks behind the scheme, on the trust domain and the path.
unfoldable pub validate : Scheme → Str → Str → Result ParseError Unit
validate scheme trust_domain path = do
  ensure (not (contains_char b'@' trust_domain)) has_user_info
  ensure (not (contains_char b':' trust_domain)) has_port
  validate_trust_domain scheme trust_domain
  validate_path scheme path

unfoldable pub parse_rest : Str → Scheme × Str → Result ParseError WorkloadIdentifier
parse_rest input (scheme, rest) = do
  ensure (not (contains_char b'?' rest)) has_query
  ensure (not (contains_char b'#' rest)) has_fragment
  validate scheme (split_path rest).0 (split_path rest).1
  ok (record { uri = input; scheme = scheme; trust_domain_len = len (split_path rest).0 })

unfoldable pub parse : Str → Result ParseError WorkloadIdentifier
unfolding find_scheme
parse input = do
  ensure (leb (len input) max_id_len) too_long
  found ← ok_or (find_scheme input) unsupported_scheme
  parse_rest input found

-- `&self.uri[start..start + self.trust_domain_len]`
unfoldable pub trust_domain : WorkloadIdentifier → Str
trust_domain id =
    let start = len (prefix id.scheme) in slice_to (slice_from id.uri start) id.trust_domain_len

unfoldable pub path : WorkloadIdentifier → Str
path id = slice_from id.uri (len (prefix id.scheme) + id.trust_domain_len)

unfoldable pub origin : WorkloadIdentifier → Str
origin id = slice_to id.uri (len (prefix id.scheme) + id.trust_domain_len)
