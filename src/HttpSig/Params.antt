-- ===== src/HttpSig/Params.antt =====
-- crates/httpsig/src/signature.rs: the signature parameters, their serialization, and the signature
-- base.
use wimsey.Common.{
  ℕ, Bool, true, false, not, ◌||◌, Option, none, some, List, [], ◌∷◌, ◌++◌, map, Result, ok, ◌>>=◌,
  ◌>>◌, ensure, ◌==◌, if◌then◌else◌,
}
use wimsey.Text.{Str, codes, contains_char, join, to_decimal}
use wimsey.HttpSig.Error.{HttpSigError, invalid_component_value, parse}
use wimsey.HttpSig.Message.{Component, quoted_id, ComponentSource}

pub record SignatureParams : Type 0 where
  pub created : Option ℕ
  pub expires : Option ℕ
  pub keyid : Option Str
  pub alg : Option Str
  pub nonce : Option Str
  pub tag : Option Str
  pub wimse_aud : Option Str
  pub wimse_sign_response : Option Bool
  pub wimse_req_nonce : Option Str

-- `SignatureParams::default()`
abbrev pub default : SignatureParams
default = record {
  created = none;
  expires = none;
  keyid = none;
  alg = none;
  nonce = none;
  tag = none;
  wimse_aud = none;
  wimse_sign_response = none;
  wimse_req_nonce = none;
}

-- The characters of an RFC 8941 string, with `\` in front of `\` and `"`.
unfoldable pub escape : Str → Str
escape [] = []
escape (c ∷ s) =
    let rest = escape s in if c == b'\\' || c == b'"' then b'\\' ∷ c ∷ rest else c ∷ rest

unfoldable pub sf_string : Str → Str
unfolding escape
sf_string value = b'"' ∷ (escape value ++ b'"' ∷ [])

-- `;name=value` for a number and for a string that is present.
abbrev pub number_param : Str → Option ℕ → Str
number_param name none = []
number_param name (some n) = b';' ∷ (name ++ (b'=' ∷ to_decimal n))

abbrev pub string_param : Str → Option Str → Str
string_param name none = []
string_param name (some s) = b';' ∷ (name ++ (b'=' ∷ sf_string s))

-- A Boolean `true` is the bare name.
abbrev pub bool_param : Str → Option Bool → Str
bool_param name none = []
bool_param name (some true) = b';' ∷ name
bool_param name (some false) = b';' ∷ (name ++ codes "=?0")

-- What follows the inner list.
unfoldable pub serialize_params : SignatureParams → Str
serialize_params p =
    number_param (codes "created") p.created
    ++ (number_param (codes "expires") p.expires
        ++ (string_param (codes "keyid") p.keyid
            ++ (string_param (codes "alg") p.alg
                ++ (string_param (codes "nonce") p.nonce
                    ++ (string_param (codes "tag") p.tag
                        ++ (string_param (codes "wimse-aud") p.wimse_aud
                            ++ (bool_param (codes "wimse-sign-response") p.wimse_sign_response
                                ++ string_param (codes "wimse-req-nonce") p.wimse_req_nonce)))))))

unfoldable pub serialize_params_value : List Component → SignatureParams → Str
unfolding serialize_params
serialize_params_value components params =
    b'(' ∷ (join (codes " ") (map quoted_id components) ++ (b')' ∷ serialize_params params))

-- A bare CR or LF would forge a line of the signature base.
abbrev pub has_newline : Str → Bool
has_newline s = contains_char b'\r' s || contains_char b'\n' s

-- The lines of the covered components, in front of the last one.
unfoldable pub base_lines : ComponentSource → List Component → Str → Result HttpSigError Str
base_lines message [] last = ok last
base_lines message (c ∷ cs) last = do
  value ← message.component_value c
  ensure (not (has_newline value)) (invalid_component_value (quoted_id c))
  rest ← base_lines message cs last
  ok (quoted_id c ++ (codes ": " ++ (value ++ (b'\n' ∷ rest))))

unfoldable pub signature_base_from_params_str :
    ComponentSource → List Component → Str → Result HttpSigError Str
unfolding base_lines
signature_base_from_params_str message components params_value = do
  ensure (not (has_newline params_value)) (parse (codes "signature parameters contain CR or LF"))
  base_lines message components (codes "\"@signature-params\": " ++ params_value)

unfoldable pub signature_base :
    ComponentSource → List Component → SignatureParams → Result HttpSigError Str
signature_base message components params =
    signature_base_from_params_str message components (serialize_params_value components params)
