-- ===== src/Cli/Output/Steps.antt =====
-- What another program may see while `write_owner_only` runs.
use wimsey.Common.{
  ℕ, ◌≡◌, ◌≢◌, ◌⊎◌, inl, inr, refl, ◌∙◌, ◌||◌, Option, none, some, List, [], ◌∷◌, take, is_some,
  All, Bool-cases,
}
use wimsey.Text.{Str, Bytes, str_eq_refl, ne-str_eq}
use wimsey.Cli.Output.{
  File, FileSystem, update, Faults, owned, clean_up, rename_temp, write_parts, fill_temp,
  write_owner_only,
}

pub update_same : (fs : FileSystem) (p : Str) (f : Option File) → update fs p f p ≡ f
unfolding update
update_same fs p f = rw (str_eq_refl p) refl

pub update_other : (fs : FileSystem) (p q : Str) (f : Option File) → q ≢ p → update fs p f q ≡ fs q
unfolding update
update_other fs p q f other = rw (ne-str_eq q p other) refl

module _ (temp path : Str) (content : Bytes) (before : FileSystem) (q : Str) where
  -- The destination is untouched or complete, the temporary file is as before, gone or readable by
  -- its owner alone, and another file is untouched.
  abbrev pub IsSafe : FileSystem → Type 0
  IsSafe fs =
      ((fs path ≡ before path) ⊎ (fs path ≡ owned content))
      × ((fs temp ≡ none) ⊎ ((bytes : Bytes) × (fs temp ≡ owned bytes)))
      × (fs q ≡ before q)

module _ (temp path : Str) (content : Bytes) (before : FileSystem) (apart : path ≢ temp) (q : Str)
    (q-temp : q ≢ temp) (q-path : q ≢ path) (faults : Faults) where
  -- Only the temporary file may have changed.
  abbrev pub IsKept : FileSystem → Type 0
  IsKept fs = (fs path ≡ before path) × (fs q ≡ before q)

  pub update-IsKept : (fs : FileSystem) (f : Option File) → IsKept fs → IsKept (update fs temp f)
  update-IsKept fs f k =
      (update_other fs temp path f apart ∙ k.0, update_other fs temp q f q-temp ∙ k.1)

  owned-IsSafe :
      (fs : FileSystem) (bytes : Bytes)
      → IsKept fs
      → IsSafe temp path content before q (update fs temp (owned bytes))
  owned-IsSafe fs bytes k =
      let (destination, other) = update-IsKept fs (owned bytes) k in
      (inl destination, inr (bytes, update_same fs temp (owned bytes)), other)

  clean_up-IsSafe :
      (fs : FileSystem)
      → IsKept fs
      → All (IsSafe temp path content before q) (clean_up faults temp path content fs)
  unfolding clean_up
  clean_up-IsSafe fs k = elim (Bool-cases faults.remove_fails) [
    | inl e ↦ rw e tt
    | inr e ↦
        let (destination, other) = update-IsKept fs none k in
        rw e ((inl destination, inl (update_same fs temp none), other), tt)
  ]

  -- The file systems behind the renaming.
  pub renamed :
      (fs : FileSystem)
      → IsKept fs
      → fs temp ≡ owned content
      → (update (update fs path (fs temp)) temp none path ≡ owned content)
        × (update (update fs path (fs temp)) temp none temp ≡ none)
        × (update (update fs path (fs temp)) temp none q ≡ before q)
  renamed fs k full =
      let moved = update fs path (fs temp) in
      (
        update_other moved temp path none apart ∙ (update_same fs path (fs temp) ∙ full),
        update_same moved temp none,
        update_other moved temp q none q-temp ∙ (update_other fs path q (fs temp) q-path ∙ k.1),
      )

  rename_temp-IsSafe :
      (fs : FileSystem)
      → IsKept fs
      → fs temp ≡ owned content
      → All (IsSafe temp path content before q) (rename_temp faults temp path content fs).1
  unfolding rename_temp
  rename_temp-IsSafe fs k full = elim (Bool-cases faults.rename_fails) [
    | inl e ↦ rw e (clean_up-IsSafe fs k)
    | inr e ↦
        let (whole, gone, other) = renamed fs k full in rw e ((inr whole, inl gone, other), tt)
  ]

  write_parts-IsSafe :
      (ns : List ℕ) (fs : FileSystem) (rest : List FileSystem)
      → IsKept fs
      → All (IsSafe temp path content before q) rest
      → All (IsSafe temp path content before q) (write_parts faults temp path content ns fs rest)
  unfolding write_parts
  write_parts-IsSafe [] fs rest k h = h
  write_parts-IsSafe (n ∷ ns) fs rest k h =
      (owned-IsSafe fs (take n content) k, write_parts-IsSafe ns fs rest k h)

  fill_temp-IsSafe :
      (cut : Option ℕ) (fs : FileSystem)
      → IsKept fs
      → All (IsSafe temp path content before q) (fill_temp faults temp path content cut fs).1
  unfolding fill_temp
  fill_temp-IsSafe none fs k =
      let full = update fs temp (owned content) in
      write_parts-IsSafe faults.parts fs _ k (
        owned-IsSafe fs content k,
        rename_temp-IsSafe full (update-IsKept fs (owned content) k)
            (update_same fs temp (owned content)),
      )
  fill_temp-IsSafe (some n) fs k =
      let partial = owned (take n content) in
      write_parts-IsSafe faults.parts fs _ k (
        owned-IsSafe fs (take n content) k,
        clean_up-IsSafe (update fs temp partial) (update-IsKept fs partial k),
      )

  -- Whatever calls fail and in whatever parts the content is written, after each call of `write_owner_only` on a file system the destination is what it was or holds the whole content, readable by its owner alone, the temporary file is gone or readable by its owner alone, and any third file is what it was, provided the temporary file has another name than the destination.
  pub write_owner_only-IsSafe :
      All (IsSafe temp path content before q) (write_owner_only faults temp path content before).1
  unfolding write_owner_only
  write_owner_only-IsSafe = elim (Bool-cases (faults.open_fails || is_some (before temp))) [
    | inl e ↦ rw e tt
    | inr e ↦ rw e (
      owned-IsSafe before [] (refl, refl),
      fill_temp-IsSafe faults.cut (update before temp (owned []))
          (update-IsKept before (owned []) (refl, refl)),
    )
  ]
