-- ===== src/HttpSig/Field.antt =====
-- crates/httpsig/src/signature.rs: scanning structured fields with respect for quoted strings.
use wimsey.Common.{
  ℕ, ◌+◌, ◌-◌, Bool, true, false, not, ◌&&◌, ◌||◌, Option, none, some, List, [], ◌∷◌, ◌++◌, Result,
  ok, err, ◌>>=◌, ◌>>◌, ensure, ok_or, and_then, ◌==◌, if◌then◌else◌,
}
use wimsey.Text.{Str, codes, str_eq, split_once, strip_prefix, strip_suffix, trim, is_empty}
use wimsey.HttpSig.Error.{HttpSigError, parse}

-- The two flags of each scanning loop.
pub record Quotes : Type 0 where
  pub in_quotes : Bool
  pub escaped : Bool

abbrev pub outside : Quotes
outside = record { in_quotes = false; escaped = false }

-- The first three branches of each loop's body: the flags after a character that is part of a
-- quoted string or that opens one, and `none` where the later branches look at the character.
unfoldable pub quote_step : Quotes → ℕ → Option Quotes
quote_step q c =
    if q.escaped
    then some (record q { escaped = false })
    else if q.in_quotes && c == b'\\'
    then some (record q { escaped = true })
    else if c == b'"'
    then some (record q { in_quotes = not q.in_quotes })
    else none

abbrev pub is_none_quotes : Option Quotes → Bool
is_none_quotes none = true
is_none_quotes (some q) = false

abbrev pub next_quotes : Quotes → Option Quotes → Quotes
next_quotes q none = q
next_quotes q (some r) = r

-- The flags after a character, and whether an unquoted `target` stands there.
unfoldable pub advance : Quotes → ℕ → Quotes
unfolding quote_step
advance q c = next_quotes q (quote_step q c)

unfoldable pub is_cut : ℕ → Quotes → ℕ → Bool
unfolding quote_step
is_cut target q c = is_none_quotes (quote_step q c) && (c == target && not q.in_quotes)

-- `find_unquoted` with the slices around the index: what precedes the first unquoted `target`, and
-- what follows it.
unfoldable pub find_unquoted_in : ℕ → Quotes → Str → Option (Str × Str)
unfolding advance is_cut
find_unquoted_in target q [] = none
find_unquoted_in target q (c ∷ s) =
    let later = find_unquoted_in target (advance q c) s in
    if is_cut target q c then some ([], s) else and_then later (λ p. some (c ∷ p.0, p.1))

unfoldable pub find_unquoted : Str → ℕ → Option (Str × Str)
unfolding find_unquoted_in
find_unquoted s target = find_unquoted_in target outside s

-- `split_unquoted_semicolons`; `part` is the text since the last cut.
unfoldable pub split_semicolons_in : Quotes → Str → Str → List Str
unfolding advance is_cut
split_semicolons_in q part [] = part ∷ []
split_semicolons_in q part (c ∷ s) =
    let cut = split_semicolons_in q [] s in
    let on = split_semicolons_in (advance q c) (part ++ c ∷ []) s in
    if is_cut b';' q c then part ∷ cut else on

unfoldable pub split_unquoted_semicolons : Str → List Str
unfolding split_semicolons_in
split_unquoted_semicolons s = split_semicolons_in outside [] s

-- `split_member`
unfoldable pub split_member : Str → Result HttpSigError (Str × Str)
split_member value = do
  parts ← ok_or (split_once b'=' (trim value)) (parse (codes "missing `=` in dictionary member"))
  ensure (not (is_empty (trim parts.0))) (parse (codes "empty signature label"))
  ok (trim parts.0, parts.1)

-- The depth of parentheses after a character that the quotes leave alone.
abbrev pub depth_step : Quotes → ℕ → ℕ → ℕ
depth_step q depth c =
    if not (is_none_quotes (quote_step q c))
    then depth
    else if not q.in_quotes && c == b'('
    then depth + 1
    else if not q.in_quotes && c == b')'
    then depth - 1
    else depth

abbrev pub is_comma : Quotes → ℕ → ℕ → Bool
is_comma q depth c = is_cut b',' q c && depth == 0

-- The loop of `split_dictionary`; `part` is the text since the last cut.
unfoldable pub split_members_in : Quotes → ℕ → Str → Str → Result HttpSigError (List (Str × Str))
unfolding advance is_cut split_member quote_step
split_members_in q depth part [] = do m ← split_member part; ok (m ∷ [])
split_members_in q depth part (c ∷ s) =
    let cut = (do m ← split_member part; ms ← split_members_in q depth [] s; ok (m ∷ ms)) in
    let on = split_members_in (advance q c) (depth_step q depth c) (part ++ c ∷ []) s in
    if is_comma q depth c then cut else on

abbrev pub has_label : Str → List (Str × Str) → Bool
has_label label [] = false
has_label label (m ∷ ms) = str_eq m.0 label || has_label label ms

-- A label that an earlier member has is refused.
unfoldable pub check_labels : List (Str × Str) → List (Str × Str) → Result HttpSigError Unit
check_labels seen [] = ok tt
check_labels seen (m ∷ ms) =
    ensure (not (has_label m.0 seen))
      (parse (codes "duplicate signature label `" ++ (m.0 ++ codes "`")))
    >> check_labels (seen ++ m ∷ []) ms

unfoldable pub split_dictionary : Str → Result HttpSigError (List (Str × Str))
unfolding split_members_in check_labels
split_dictionary value = do
  members ← split_members_in outside 0 [] value
  check_labels [] members
  ok members

-- The loop of `parse_sf_string`, on the text between the quotes.
unfoldable pub unescape : Str → Result HttpSigError Str
unescape [] = ok []
unescape (c ∷ []) = if c == b'\\' then err (parse (codes "bad string escape")) else ok (c ∷ [])
unescape (c ∷ d ∷ s) =
    let plain = (do rest ← unescape (d ∷ s); ok (c ∷ rest)) in
    let pair = (do rest ← unescape s; ok (d ∷ rest)) in
    if c == b'\\'
    then (if d == b'\\' || d == b'"' then pair else err (parse (codes "bad string escape")))
    else plain

unfoldable pub parse_sf_string : Str → Result HttpSigError Str
unfolding unescape
parse_sf_string token = do
  inner ←
      ok_or (and_then (strip_prefix token (codes "\"")) (λ t. strip_suffix t (codes "\"")))
        (parse (codes "not a string: " ++ token))
  unescape inner
