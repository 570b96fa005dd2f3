-- ===== src/HttpSig/Chooses.antt =====
-- Which member of a `Signature-Input` field is verified under a WIMSE profile.
use wimsey.Common.{◌≡◌, ◌⊎◌, inl, inr, true, Option, List, [], ◌∷◌, ok, arith, All, Bool-cases}
use wimsey.Text.{Str}
use wimsey.HttpSig.Member.{has_wimse_tag, tagged_members, only_tagged, choose_member}

abbrev IsIn : Str × Str → List (Str × Str) → Type 0
IsIn m [] = ⊥
IsIn m (n ∷ ms) = (n ≡ m) ⊎ IsIn m ms

-- The member is one of the list, and no other one is tagged.
pub record IsOnlyTagged (m : Str × Str) (ms : List (Str × Str)) : Type 0 where
  pub listed : IsIn m ms
  pub tagged : has_wimse_tag m.1 ≡ true
  pub others : All (λ n. has_wimse_tag n.1 ≡ true → n ≡ m) ms

none-tagged :
    (m : Str × Str) (ms : List (Str × Str))
    → tagged_members ms ≡ []
    → All (λ n. has_wimse_tag n.1 ≡ true → n ≡ m) ms
none-tagged m [] h = tt
none-tagged m (n ∷ ms) h = elim (Bool-cases (has_wimse_tag n.1)) [
  | inl tag ↦ ground arith
  | inr other ↦ (λ tag. cc, none-tagged m ms (ground arith))
]

one-tagged :
    (m : Str × Str) (ms : List (Str × Str)) → tagged_members ms ≡ m ∷ [] → IsOnlyTagged m ms
one-tagged m [] h = cc
one-tagged m (n ∷ ms) h = elim (Bool-cases (has_wimse_tag n.1)) [
  | inl tag ↦
      let found : n ∷ tagged_members ms ≡ m ∷ [] = ground arith in
      let same : n ≡ m = cc in
      let rest : tagged_members ms ≡ [] = cc in
      record {
        listed = inl same;
        tagged = rw (← same) tag;
        others = (λ t. same, none-tagged m ms rest);
      }
  | inr other ↦
      let later = one-tagged m ms (ground arith) in
      record {
        listed = inr later.listed;
        tagged = later.tagged;
        others = (λ tag. cc, later.others);
      }
]

only_tagged-eq-ok : (l : List (Str × Str)) (m : Str × Str) → only_tagged l ≡ ok m → l ≡ m ∷ []
only_tagged-eq-ok [] m h = cc
only_tagged-eq-ok (x ∷ []) m h = cc
only_tagged-eq-ok (x ∷ y ∷ l) m h = cc

-- Of two members or more, a WIMSE profile chooses one that carries the WIMSE tag and that every other tagged member is equal to, whatever label is configured.
pub choose_member-IsOnlyTagged :
    (a b : Str × Str) (ms : List (Str × Str)) (label : Option Str) (m : Str × Str)
    → choose_member (a ∷ b ∷ ms) true label ≡ ok m
    → IsOnlyTagged m (a ∷ b ∷ ms)
unfolding choose_member
choose_member-IsOnlyTagged a b ms label m h =
    one-tagged m (a ∷ b ∷ ms) (only_tagged-eq-ok (tagged_members (a ∷ b ∷ ms)) m h)
