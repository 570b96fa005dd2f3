-- ===== src/Cli/Output.antt =====
-- crates/cli/src/main.rs: `write_owner_only`, on a file system.
pub mod Steps
pub mod Outcome
use wimsey.Common.{
  ℕ, Bool, true, false, ◌||◌, Option, none, some, List, [], ◌∷◌, ◌++◌, Result, ok, err, ◌>>=◌,
  ok_or, take, is_some, if◌then◌else◌,
}
use wimsey.Text.{Str, Bytes, codes, str_eq, as_bytes}
use wimsey.Cli.Error.{CliError, message, file}

-- The bits that `mode` gives a new file: 0600.
abbrev pub owner_only : ℕ
owner_only = 384

pub record File : Type 0 where
  pub content : Bytes
  pub mode : ℕ

-- What each path names.
abbrev pub FileSystem : Type 0
FileSystem = Str → Option File

unfoldable pub update : FileSystem → Str → Option File → FileSystem
update fs path entry = λ q. if str_eq q path then entry else fs q

-- Which calls fail: `open`, the writing or `sync_all` (with the number of bytes that reached the
-- file), `rename` and `remove_file`. `write_all` may write in several parts: `parts` are the
-- lengths that the file has in between.
pub record Faults : Type 0 where
  pub open_fails : Bool
  pub parts : List ℕ
  pub cut : Option ℕ
  pub rename_fails : Bool
  pub remove_fails : Bool

-- A result, and the file systems that other programs may see on the way, one after each call.
abbrev pub Run : Type 0
Run = Result CliError Unit × List FileSystem

-- Where a run ends.
unfoldable pub last : FileSystem → List FileSystem → FileSystem
last fs [] = fs
last fs (next ∷ rest) = last next rest

-- The name of the temporary file, over `file_name` and the joining of a name to the directory.
unfoldable pub temp_path :
    (Str → Option Str) → (Str → Str → Str) → Str → Result CliError Str → Result CliError Str
temp_path file_name beside path id = do
  name ← ok_or (file_name path) (message (codes "output path has no file name"))
  random ← id
  ok (beside path (name ++ (codes ".tmp-" ++ random)))

abbrev pub owned : Bytes → Option File
owned content = some (record { content = content; mode = owner_only })

module _ (faults : Faults) (temp path : Str) (content : Bytes) where
  -- `remove_file`, whose error is ignored.
  unfoldable pub clean_up : FileSystem → List FileSystem
  clean_up fs = if faults.remove_fails then [] else update fs temp none ∷ []

  unfoldable pub rename_temp : FileSystem → Run
  unfolding clean_up
  rename_temp fs =
      if faults.rename_fails
      then (err file, clean_up fs)
      else (ok tt, update (update fs path (fs temp)) temp none ∷ [])

  -- The parts that `write_all` writes, up to its last.
  unfoldable pub write_parts : List ℕ → FileSystem → List FileSystem → List FileSystem
  write_parts [] fs rest = rest
  write_parts (n ∷ ns) fs rest =
      let next = update fs temp (owned (take n content)) in next ∷ write_parts ns fs rest

  -- `write_all` and `sync_all`, and what follows.
  unfoldable pub fill_temp : Option ℕ → FileSystem → Run
  unfolding write_parts rename_temp clean_up
  fill_temp none fs =
      let full = update fs temp (owned content) in
      let (result, rest) = rename_temp full in (result, write_parts faults.parts fs (full ∷ rest))
  fill_temp (some n) fs =
      let partial = update fs temp (owned (take n content)) in
      (err file, write_parts faults.parts fs (partial ∷ clean_up partial))

  -- `write_owner_only`, after the name of the temporary file.
  unfoldable pub write_owner_only : FileSystem → Run
  unfolding update fill_temp
  write_owner_only fs =
      if faults.open_fails || is_some (fs temp)
      then (err file, [])
      else (let created = update fs temp (owned []) in
          let (result, rest) = fill_temp faults.cut created in (result, created ∷ rest))

-- `emit`: a line of the standard output, or a file. The state is what was printed and the files.
unfoldable pub emit :
    Faults
    → (Str → Option Str)
    → (Str → Str → Str)
    → Result CliError Str
    → Str
    → Option Str
    → List Str × FileSystem
    → Result CliError Unit × (List Str × FileSystem)
unfolding write_owner_only temp_path last
emit faults file_name beside id content none (printed, fs) =
    (ok tt, (printed ++ (content ∷ []), fs))
emit faults file_name beside id content (some path) (printed, fs) =
    elim (temp_path file_name beside path id) [
      | ok temp ↦
          let (result, seen) = write_owner_only faults temp path (as_bytes content) fs in
          (result, (printed, last fs seen))
      | err e ↦ (err e, (printed, fs))
    ]
