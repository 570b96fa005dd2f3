-- ===== src/Text/Trim.antt =====
-- `char::is_whitespace`, `trim`, `split_whitespace` and `trim_matches`.
use wimsey.Common.{ℕ, Bool, true, false, ◌||◌, List, [], ◌∷◌, ◌==◌, within, if◌then◌else◌}
use wimsey.Text.Equal.{Str}

-- The Unicode property White_Space.
unfoldable pub is_whitespace : ℕ → Bool
is_whitespace c =
    within 0x09 0x0d c
    || c == 0x20
    || c == 0x85
    || c == 0xa0
    || c == 0x1680
    || within 0x2000 0x200a c
    || within 0x2028 0x2029 c
    || c == 0x202f
    || c == 0x205f
    || c == 0x3000

unfoldable pub trim_start_matches : (ℕ → Bool) → Str → Str
trim_start_matches p [] = []
trim_start_matches p (c ∷ s) = let rest = trim_start_matches p s in if p c then rest else c ∷ s

-- What is kept of `c` in front of a trimmed end.
abbrev keep_end : (ℕ → Bool) → ℕ → Str → Str
keep_end p c [] = if p c then [] else c ∷ []
keep_end p c (d ∷ r) = c ∷ d ∷ r

unfoldable pub trim_end_matches : (ℕ → Bool) → Str → Str
trim_end_matches p [] = []
trim_end_matches p (c ∷ s) = keep_end p c (trim_end_matches p s)

unfoldable pub trim_matches : (ℕ → Bool) → Str → Str
unfolding trim_start_matches trim_end_matches
trim_matches p s = trim_end_matches p (trim_start_matches p s)

unfoldable pub trim : Str → Str
unfolding trim_matches is_whitespace
trim = trim_matches is_whitespace

-- `split_whitespace`: the maximal runs of other characters.
abbrev pub push_word : Bool → ℕ → List Str → List Str
push_word true c ws = (c ∷ []) ∷ ws
push_word false c [] = (c ∷ []) ∷ []
push_word false c (w ∷ ws) = (c ∷ w) ∷ ws

abbrev pub ends_here : Str → Bool
unfolding is_whitespace
ends_here [] = true
ends_here (c ∷ s) = is_whitespace c

unfoldable pub split_whitespace : Str → List Str
unfolding is_whitespace
split_whitespace [] = []
split_whitespace (c ∷ s) =
    let rest = split_whitespace s in
    if is_whitespace c then rest else push_word (ends_here s) c rest
