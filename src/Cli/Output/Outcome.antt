-- ===== src/Cli/Output/Outcome.antt =====
-- What a run of `write_owner_only` leaves, as one step that replaces a file or does nothing.
use wimsey.Common.{
  ℕ, ◌≡◌, ◌≢◌, ◌⊎◌, ◌↔◌, inl, inr, refl, sym, ◌∙◌, ◌||◌, true, false, Option, none, some, List, [],
  ◌∷◌, Result, ok, err, take, is_some, arith, Bool-cases, Option-cases,
}
use wimsey.Text.{Str, Bytes}
use wimsey.Cli.Error.{CliError, file}
use wimsey.Cli.Output.{
  FileSystem, update, Faults, owned, last, clean_up, rename_temp, write_parts, fill_temp,
  write_owner_only,
}
use wimsey.Cli.Output.Steps.{update_same, IsKept, update-IsKept, renamed}

module _ (temp path : Str) (content : Bytes) (before : FileSystem) (q : Str) (faults : Faults) where
  -- All or nothing, up to a temporary file that could not be removed.
  abbrev pub IsOutcome : Result CliError Unit → FileSystem → Type 0
  IsOutcome (ok u) fs = (fs path ≡ owned content) × (fs temp ≡ none) × (fs q ≡ before q)
  IsOutcome (err e) fs =
      (fs path ≡ before path)
      × ((fs temp ≡ before temp)
          ⊎ ((faults.remove_fails ≡ true) × ((bytes : Bytes) × (fs temp ≡ owned bytes))))
      × (fs q ≡ before q)

  -- No call but the removal fails, and the name of the temporary file is free.
  abbrev pub IsUndisturbed : Type 0
  IsUndisturbed =
      (faults.open_fails ≡ false)
      × (before temp ≡ none)
      × (faults.cut ≡ none)
      × (faults.rename_fails ≡ false)

last-write_parts :
    (faults : Faults) (temp path : Str) (content : Bytes) (ns : List ℕ) (fs start next : FileSystem)
    (rest : List FileSystem)
    → last start (write_parts faults temp path content ns fs (next ∷ rest)) ≡ last next rest
unfolding last write_parts
last-write_parts faults temp path content [] fs start next rest = refl
last-write_parts faults temp path content (n ∷ ns) fs start next rest =
    last-write_parts faults temp path content ns fs (update fs temp (owned (take n content))) next
      rest

module _ (temp path : Str) (content : Bytes) (before : FileSystem) (apart : path ≢ temp) (q : Str)
    (q-temp : q ≢ temp) (q-path : q ≢ path) (faults : Faults) (free : before temp ≡ none) where
  -- Cleaned up behind a call that failed.
  clean_up-IsOutcome :
      (fs : FileSystem) (bytes : Bytes)
      → IsKept temp path content before apart q q-temp q-path faults fs
      → fs temp ≡ owned bytes
      → IsOutcome temp path content before q faults
          (err file)
          (last fs (clean_up faults temp path content fs))
  unfolding clean_up last
  clean_up-IsOutcome fs bytes k held = elim (Bool-cases faults.remove_fails) [
    | inl e ↦ rw e (k.0, inr (refl, (bytes, held)), k.1)
    | inr e ↦
        let (destination, other) =
          update-IsKept temp path content before apart q q-temp q-path faults fs none k in
        rw e (destination, inl (update_same fs temp none ∙ sym free), other)
  ]

  rename_temp-IsOutcome :
      (fs : FileSystem)
      → IsKept temp path content before apart q q-temp q-path faults fs
      → fs temp ≡ owned content
      → IsOutcome temp path content before q faults
          (rename_temp faults temp path content fs).0
          (last fs (rename_temp faults temp path content fs).1)
  unfolding rename_temp last
  rename_temp-IsOutcome fs k full = elim (Bool-cases faults.rename_fails) [
    | inl e ↦ rw e (clean_up-IsOutcome fs content k full)
    | inr e ↦ rw e (renamed temp path content before apart q q-temp q-path faults fs k full)
  ]

  fill_temp-IsOutcome :
      (cut : Option ℕ) (fs : FileSystem)
      → IsKept temp path content before apart q q-temp q-path faults fs
      → IsOutcome temp path content before q faults
          (fill_temp faults temp path content cut fs).0
          (last fs (fill_temp faults temp path content cut fs).1)
  unfolding fill_temp
  fill_temp-IsOutcome none fs k =
      let full = update fs temp (owned content) in
      rw
        (last-write_parts faults temp path content faults.parts fs fs full
          (rename_temp faults temp path content full).1)
        (rename_temp-IsOutcome full
          (update-IsKept temp path content before apart q q-temp q-path faults fs (owned content) k)
          (update_same fs temp (owned content)))
  fill_temp-IsOutcome (some n) fs k =
      let part = owned (take n content) in
      let partial = update fs temp part in
      rw
        (last-write_parts faults temp path content faults.parts fs fs partial
          (clean_up faults temp path content partial))
        (clean_up-IsOutcome partial (take n content)
          (update-IsKept temp path content before apart q q-temp q-path faults fs part k)
          (update_same fs temp part))

not_some : {A : Type 0} (o : Option A) → is_some o ≡ false → o ≡ none
not_some none h = refl
not_some (some a) h = cc h

module _ (temp path : Str) (content : Bytes) (before : FileSystem) (faults : Faults) where
  fill_temp_iff :
      (cut : Option ℕ) (fs : FileSystem)
      → ((fill_temp faults temp path content cut fs).0 ≡ ok tt)
        ↔ ((cut ≡ none) × (faults.rename_fails ≡ false))
  unfolding fill_temp rename_temp
  fill_temp_iff none fs = elim (Bool-cases faults.rename_fails) [
    | inl e ↦ (λ h. ground (arith, e, h), λ c. cc (e, c.1))
    | inr e ↦ (λ h. (refl, e), λ c. rw e refl)
  ]
  fill_temp_iff (some n) fs = (λ h. cc h, λ c. cc (c.0))

  write_owner_only_iff :
      ((write_owner_only faults temp path content before).0 ≡ ok tt)
      ↔ IsUndisturbed temp path content before [] faults
  unfolding write_owner_only
  write_owner_only_iff =
      let rest = fill_temp_iff faults.cut (update before temp (owned [])) in
      elim (Bool-cases (faults.open_fails || is_some (before temp))) [
        | inl e ↦ (
          λ h. ground (arith, e, h),
          λ (opened, free, uncut, renames). ground (arith, e, opened, free),
        )
        | inr e ↦ (
          λ h.
              let (uncut, renames) = rest.0 (rw e at h) in
              let opened : faults.open_fails ≡ false = ground (arith, e) in
              let free : is_some (before temp) ≡ false = ground (arith, e) in
              (opened, not_some (before temp) free, uncut, renames),
          λ (opened, free, uncut, renames). rw e (rest.1 (uncut, renames)),
        )
      ]

module _ (temp path : Str) (content : Bytes) (before : FileSystem) (apart : path ≢ temp) (q : Str)
    (q-temp : q ≢ temp) (q-path : q ≢ path) (faults : Faults) where
  -- A run of `write_owner_only` succeeds exactly if none of the calls that open, write and rename fails and the temporary file's name is free. It then leaves the whole content in the destination, readable by its owner alone, and no temporary file; otherwise it leaves the destination as it was, and the temporary file's name too, unless the removal fails, when a file readable by its owner alone may stay there. Any third file is left as it was. The temporary file has another name than the destination.
  pub write_owner_only-IsOutcome :
      IsOutcome temp path content before q faults
        (write_owner_only faults temp path content before).0
        (last before (write_owner_only faults temp path content before).1)
      × (((write_owner_only faults temp path content before).0 ≡ ok tt)
          ↔ IsUndisturbed temp path content before q faults)
  unfolding write_owner_only last
  write_owner_only-IsOutcome = (
    elim (Bool-cases (faults.open_fails || is_some (before temp))) [
      | inl e ↦ rw e (refl, inl refl, refl)
      | inr e ↦ elim (Option-cases (before temp)) [
        | inl free ↦ rw e (
            fill_temp-IsOutcome temp path content before apart q q-temp q-path faults free
              faults.cut (update before temp (owned []))
              (update-IsKept temp path content before apart q q-temp q-path faults before (owned [])
                (refl, refl)))
        | inr (f, taken) ↦ ground (arith, e, taken)
      ]
    ],
    write_owner_only_iff temp path content before faults,
  )
