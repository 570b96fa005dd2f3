-- ===== src/Cli/Request.antt =====
-- crates/cli/src/httpsig.rs: the checks on the parts of a request that are given as arguments.
pub mod Described
use wimsey.Common.{
  ℕ, Bool, true, false, not, ◌&&◌, ◌||◌, Option, none, some, List, [], ◌∷◌, ◌++◌, Result, ok, err,
  ◌>>=◌, ◌>>◌, ensure, ok_or, ◌==◌, within, all, any, if◌then◌else◌, ltb,
}
use mathlib.Core.Option
use wimsey.Text.{
  Str, codes, str_eq, is_empty, trim, trim_start_matches, to_ascii_lowercase, split_once, split,
  strip_prefix, contains_char,
}
use wimsey.HttpSig.Message.{
  Component, method, authority, path, query, contains, header_named, quoted_id, Headers,
  HttpRequest,
}
use wimsey.Cli.Error.{CliError, message}

abbrev pub is_ascii_alphanumeric : ℕ → Bool
is_ascii_alphanumeric c = within b'a' b'z' c || within b'A' b'Z' c || within b'0' b'9' c

-- An RFC 9110 `tchar`.
unfoldable pub is_tchar : ℕ → Bool
is_tchar c = is_ascii_alphanumeric c || any (λ d. c == d) (codes "!#$%&'*+-.^_`|~")

unfoldable pub is_valid_header_name : Str → Bool
unfolding is_tchar
is_valid_header_name name = not (is_empty name) && all is_tchar name

abbrev pub is_ascii_control : ℕ → Bool
is_ascii_control c = ltb c 0x20 || c == 0x7f

unfoldable pub is_valid_header_value : Str → Bool
is_valid_header_value value = all (λ c. c == 0x09 || not (is_ascii_control c)) value

unfoldable pub parse_header : Str → Result CliError (Str × Str)
unfolding is_valid_header_name is_valid_header_value
parse_header spec = do
  parts ← ok_or (split_once b':' spec) (message (codes "header must be in `Name: Value` form"))
  let name = trim parts.0
  ensure (is_valid_header_name name)
      (message (codes "invalid header name `" ++ (name ++ codes "`")))
  let value = trim parts.1
  ensure (is_valid_header_value value)
      (message (codes "header `" ++ (name ++ codes "` has an invalid value")))
  ok (name, value)

-- The loop over `--header`.
unfoldable pub parse_headers : List Str → Result CliError Headers
unfolding parse_header
parse_headers [] = ok []
parse_headers (spec ∷ specs) = do h ← parse_header spec; hs ← parse_headers specs; ok (h ∷ hs)

abbrev contains_any : Str → Str → Bool
contains_any chars s = any (λ c. contains_char c s) chars

unfoldable pub checked_authority : Str → Result CliError Str
checked_authority raw =
    let a = trim raw in
    do
      ensure (not (is_empty a)) (message (codes "authority must not be empty"))
      ensure (not (contains_any (codes "/?#") a || any (λ c. c == b' ' || is_ascii_control c) a))
          (message (codes "authority must not contain `/`, `?`, `#`, spaces or control characters"))
      ok (to_ascii_lowercase a)

abbrev starts_with_slash : Str → Bool
starts_with_slash [] = false
starts_with_slash (c ∷ s) = c == b'/'

unfoldable pub checked_path : Str → Result CliError Str
checked_path raw =
    let p = trim raw in
    do
      ensure (starts_with_slash p) (message (codes "path must start with `/`"))
      ensure (not (contains_any (codes "?#") p))
          (message (codes "path must not contain a query (`?`) or fragment (`#`)"))
      ok p

unfoldable pub checked_method : Str → Result CliError Str
unfolding is_valid_header_name
checked_method raw =
    let m = trim raw in
    do
      ensure (is_valid_header_name m) (message (codes "method must be a non-empty HTTP token"))
      ok m

abbrev is_label_start : ℕ → Bool
is_label_start c = within b'a' b'z' c || c == b'*'

abbrev is_label_char : ℕ → Bool
is_label_char c = within b'a' b'z' c || within b'0' b'9' c || any (λ d. c == d) (codes "_-.*")

abbrev is_label : Str → Bool
is_label [] = false
is_label (c ∷ s) = is_label_start c && all is_label_char s

unfoldable pub checked_label : Str → Result CliError Str
checked_label raw =
    let label = trim raw in
    do
      ensure (is_label label) (
          message (
            codes
              "label must be a structured-field key: a lowercase letter or `*`, then `[a-z0-9_.*-]`"))
      ok label

abbrev derived : Str → Result CliError Component
derived name =
    if str_eq name (codes "method")
    then ok method
    else if str_eq name (codes "authority")
    then ok authority
    else if str_eq name (codes "path")
    then ok path
    else if str_eq name (codes "query")
    then ok query
    else err (message (codes "unsupported derived component `@" ++ (name ++ codes "`")))

unfoldable pub parse_component : Str → Result CliError Component
unfolding is_valid_header_name
parse_component raw =
    let token = trim raw in
    elim (strip_prefix token (codes "@")) [
      | some name ↦ derived (to_ascii_lowercase name)
      | none ↦ (do
        ensure (is_valid_header_name token)
            (message (codes "invalid header component `" ++ (token ++ codes "`")))
        ok (header_named token))
    ]

-- The tokens that are not empty, one after the other.
unfoldable pub parse_tokens : List Str → Result CliError (List Component)
unfolding parse_component
parse_tokens [] = ok []
parse_tokens (raw ∷ raws) =
    let rest = parse_tokens raws in
    if is_empty (trim raw)
    then rest
    else (do c ← parse_component (trim raw); cs ← rest; ok (c ∷ cs))

abbrev no_components : List Component → Bool
no_components [] = true
no_components (c ∷ cs) = false

unfoldable pub parse_components : Str → Result CliError (List Component)
unfolding parse_tokens
parse_components list = do
  components ← parse_tokens (split b',' list)
  ensure (not (no_components components)) (message (codes "the component list must not be empty"))
  ok components

-- Every mandatory component is in the set.
unfoldable pub ensure_covers : List Component → List Component → Result CliError Unit
ensure_covers set [] = ok tt
ensure_covers set (c ∷ cs) =
    ensure (contains set c)
      (message (codes "component " ++ (quoted_id c ++ codes " must be covered")))
    >> ensure_covers set cs

unfoldable pub build_request : Str → Str → Str → Option Str → Headers → Result CliError HttpRequest
unfolding checked_method checked_authority checked_path
build_request raw_method raw_authority raw_path raw_query headers = do
  m ← checked_method raw_method
  a ← checked_authority raw_authority
  p ← checked_path raw_path
  ok (record {
    method = m;
    authority = a;
    path = p;
    query = Option.map (λ q. trim_start_matches (λ c. c == b'?') (trim q)) raw_query;
    headers = headers;
  })

-- What is covered: the list given, if it holds the mandatory components, or those.
unfoldable pub chosen_components : Option Str → List Component → Result CliError (List Component)
unfolding parse_components ensure_covers
chosen_components none mandatory = ok mandatory
chosen_components (some list) mandatory = do
  components ← parse_components list
  ensure_covers components mandatory
  ok components
