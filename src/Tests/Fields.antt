-- ===== src/Tests/Fields.antt =====
-- Component identifiers and strings, written and read.
use wimsey.Common.{true, [], ◌∷◌, ◌≡◌, refl, ok, none}
use wimsey.Text.{
  split_once, trim, trim_matches, trim_start_matches, trim_end_matches, is_whitespace, str_eq,
  strip_prefix, Str, codes, strip_suffix, to_ascii_lowercase, lower,
}
use wimsey.HttpSig.Message.{req, header, quoted_id, from_quoted_id}
use wimsey.HttpSig.Params.{sf_string}
use wimsey.HttpSig.Field.{
  parse_sf_string, unescape, find_unquoted, find_unquoted_in, advance, is_cut, quote_step,
  split_unquoted_semicolons, split_semicolons_in,
}
use wimsey.HttpSig.Member.{choose_member, has_wimse_tag}
use wimsey.HttpSig.Chooses.{IsOnlyTagged, choose_member-IsOnlyTagged}
use wimsey.HttpSig.Ids.{IsNamed, from_quoted_id-quoted_id}
use wimsey.HttpSig.Strings.{parse_sf_string-sf_string}

abbrev token : Str
token = codes "\"@method\";req"

named : IsNamed (req (header (codes "txn-token")))
unfolding to_ascii_lowercase lower
named = (refl, refl)

from_quoted_id-quoted_id_example :
    from_quoted_id (quoted_id (req (header (codes "txn-token"))))
    ≡ ok (req (header (codes "txn-token")))
from_quoted_id-quoted_id_example = from_quoted_id-quoted_id (req (header (codes "txn-token"))) named

parse_sf_string-sf_string_example :
    parse_sf_string (sf_string (codes "a\"b\\c")) ≡ ok (codes "a\"b\\c")
parse_sf_string-sf_string_example = parse_sf_string-sf_string (codes "a\"b\\c")

abbrev other_member : Str × Str
other_member = (codes "proxy", codes "();created=1")

abbrev wimse_member : Str × Str
wimse_member = (codes "wimse", codes "();tag=\"wimse-workload-to-workload\"")

chosen : choose_member (other_member ∷ wimse_member ∷ []) true none ≡ ok wimse_member
unfolding choose_member has_wimse_tag find_unquoted find_unquoted_in advance is_cut quote_step
    split_unquoted_semicolons split_semicolons_in split_once trim trim_matches trim_start_matches
    trim_end_matches is_whitespace str_eq parse_sf_string unescape strip_prefix strip_suffix
chosen = refl

choose_member-IsOnlyTagged_example : IsOnlyTagged wimse_member (other_member ∷ wimse_member ∷ [])
choose_member-IsOnlyTagged_example =
    choose_member-IsOnlyTagged other_member wimse_member [] none wimse_member chosen
