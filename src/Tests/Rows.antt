-- ===== src/Tests/Rows.antt =====
-- Concrete crates for certificates at which the assumptions on them hold: a certificate is a row
-- of numbers.
use wimsey.Common.{
  ℕ, zero, suc, ◌≡◌, refl, sym, ◌&&◌, Option, none, some, List, [], ◌∷◌, map, arith, leb, and_then,
}
use mathlib.Core.Option.{some-injective}
use wimsey.Text.{Str, Bytes}
use wimsey.Jose.Algorithm.{Algorithm, ed_dsa, es256}
use wimsey.Mtls.Certificate.{
  Oid, uri, X509Certificate, CertificateParams, Signer, X509, oid_sig_ed25519,
  oid_key_type_ec_public_key,
}
use wimsey.Mtls.Verify.{oid_ec_p256, signature_oid}
use wimsey.Mtls.Checks.{IsKeyOf}
use wimsey.Mtls.Laws.{IsX509, IsWindow}
use wimsey.Tests.Codec.{Codec, number, text, list, pair}

-- What a certificate holds: its key, the signer's algorithm, the signature, the window, the names.
abbrev Fields : Type 0
Fields = ℕ × (Bytes × (ℕ × (Bytes × (ℕ × (ℕ × List Str)))))

abbrev fields : Codec Fields
fields = pair number (pair text (pair number (pair text (pair number (pair number (list text))))))

abbrev code : Algorithm → ℕ
code ed_dsa = 0
code es256 = 1

abbrev key_oid : ℕ → Oid
key_oid zero = oid_sig_ed25519
key_oid (suc n) = oid_key_type_ec_public_key

abbrev signed_oid : ℕ → Oid
signed_oid zero = signature_oid ed_dsa
signed_oid (suc n) = signature_oid es256

abbrev tbs : Bytes
tbs = 1 ∷ 2 ∷ 3 ∷ []

abbrev certificate : Fields → X509Certificate ℕ
certificate (kind, (key, (signer, (signature, (start, (end, names)))))) = record {
  key_algorithm = key_oid kind;
  key_parameters = some oid_ec_p256;
  key = record { bytes = key; unused_bits = 0 };
  signature_algorithm = signed_oid signer;
  tbs_signature_algorithm = signed_oid signer;
  signature_value = record { bytes = signature; unused_bits = 0 };
  tbs_certificate = tbs;
  is_valid_at = λ at. leb start at && leb at end;
  alternative_names = some (some (map uri names));
}

abbrev written : ℕ → Bytes → CertificateParams ℕ → Signer → Fields
written kind key params signer = (
  kind,
  (
    key,
    (
      code signer.algorithm,
      (signer.sign tbs, (params.not_before, (params.not_after, params.subject_alt_names))),
    ),
  ),
)

abbrev pub rows : X509
rows = record {
  Time = ℕ;
  Spki = Bytes;
  from_timestamp = some;
  new = some tt;
  ia5 = some;
  generate_ed25519 = none;
  spki_from_der = some;
  self_signed = λ params signer.
      some (fields.put (written (code signer.algorithm) signer.public_key params signer) []);
  signed_by = λ params info issuer signer. some (fields.put (written 0 info params signer) []);
  from_der = λ der. and_then (fields.get der) (λ (v, rest). some (rest, certificate v));
}

signed_oid-code : (a : Algorithm) → signed_oid (code a) ≡ signature_oid a
signed_oid-code ed_dsa = refl
signed_oid-code es256 = refl

reads :
    (v : Fields) (der : Bytes)
    → ◌≡◌ {A = Option Bytes} (some (fields.put v [])) (some der)
    → rows.from_der der ≡ some ([], certificate v)
reads v der e = rw (← (some-injective (fields.put v []) der e), fields.get-put v []) refl

window :
    (kind : ℕ) (key : Bytes) (params : CertificateParams ℕ) (signer : Signer)
    → IsWindow rows params (certificate (written kind key params signer))
window kind key params signer start end now at s e n low high =
    let s' = some-injective start params.not_before s in
    let e' = some-injective end params.not_after e in
    let n' = some-injective now at n in ground arith

certified :
    (a : Algorithm) (key : Bytes) (rest : ℕ × (Bytes × (ℕ × (ℕ × List Str))))
    → IsKeyOf a (certificate (code a, (key, rest)))
certified ed_dsa key rest = refl
certified es256 key rest = (refl, refl)

pub rows-IsX509 : IsX509 rows
rows-IsX509 = record {
  ia5_same = λ s n e. sym (some-injective s n e);
  self_signed_reads = λ params signer der e.
      let v = written (code signer.algorithm) signer.public_key params signer in
      (
        certificate v,
        reads v der e,
        record { algorithm = certified signer.algorithm signer.public_key v.1.1; key = refl },
        window (code signer.algorithm) signer.public_key params signer,
      );
  signed_by_reads = λ params info issuer signer der e.
      let v = written 0 info params signer in
      (
        certificate v,
        reads v der e,
        record {
          outer = signed_oid-code signer.algorithm;
          inner = signed_oid-code signer.algorithm;
          signature = refl;
        },
        window 0 info params signer,
        refl,
      );
}
