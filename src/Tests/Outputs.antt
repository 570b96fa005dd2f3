-- ===== src/Tests/Outputs.antt =====
-- A file that is replaced, with and without a fault.
use wimsey.Common.{
  if◌then◌else◌, ◌≡◌, ◌≢◌, ◌↔◌, refl, false, true, none, some, [], ◌∷◌, ok, All, length,
}
use wimsey.Text.{Str, Bytes, codes, str_eq, str_eq_iff}
use wimsey.Cli.Output.{FileSystem, update, Faults, owned, last, write_owner_only}
use wimsey.Cli.Output.Steps.{IsSafe, write_owner_only-IsSafe}
use wimsey.Cli.Output.Outcome.{IsOutcome, IsUndisturbed, write_owner_only-IsOutcome}

abbrev temp : Str
temp = codes "k.tmp-1"

abbrev path : Str
path = codes "k"

abbrev other : Str
other = codes "o"

abbrev before : FileSystem
before = λ q. if str_eq q path then some (record { content = 9 ∷ []; mode = 420 }) else none

apart : (a b : Str) → str_eq a b ≡ false → a ≢ b
apart a b h e = cc ((str_eq_iff a b).1 e, h)

path-temp : str_eq path temp ≡ false
unfolding str_eq
path-temp = refl

other-temp : str_eq other temp ≡ false
unfolding str_eq
other-temp = refl

other-path : str_eq other path ≡ false
unfolding str_eq
other-path = refl

abbrev content : Bytes
content = 1 ∷ 2 ∷ 3 ∷ []

abbrev cut_short : Faults
cut_short = record {
  open_fails = false;
  parts = 1 ∷ [];
  cut = some 2;
  rename_fails = false;
  remove_fails = true;
}

abbrev no_faults : Faults
no_faults = record {
  open_fails = false;
  parts = 1 ∷ 2 ∷ [];
  cut = none;
  rename_fails = false;
  remove_fails = false;
}

-- A run without a fault: created, two parts, full, renamed.
steps : length (write_owner_only no_faults temp path content before).1 ≡ 5
unfolding write_owner_only update str_eq
steps = refl

left_behind :
    last before (write_owner_only cut_short temp path content before).1 temp ≡ owned (1 ∷ 2 ∷ [])
unfolding write_owner_only update str_eq last
left_behind = refl

write_owner_only-IsSafe_example :
    All
      (IsSafe temp path content before other)
      (write_owner_only no_faults temp path content before).1
write_owner_only-IsSafe_example =
    write_owner_only-IsSafe temp path content before (apart path temp path-temp) other
      (apart other temp other-temp) (apart other path other-path) no_faults

write_owner_only-IsOutcome_example :
    IsOutcome temp path content before other no_faults
      (write_owner_only no_faults temp path content before).0
      (last before (write_owner_only no_faults temp path content before).1)
    × (((write_owner_only no_faults temp path content before).0 ≡ ok tt)
        ↔ IsUndisturbed temp path content before other no_faults)
write_owner_only-IsOutcome_example =
    write_owner_only-IsOutcome temp path content before (apart path temp path-temp) other
      (apart other temp other-temp) (apart other path other-path) no_faults
