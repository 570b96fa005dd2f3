-- ===== src/Jws/Json.antt =====
-- `serde_json::to_vec` and `from_slice` at one type, and what is relied on.
use wimsey.Common.{◌≡◌, Option, some}
use wimsey.Text.{Bytes}

pub record Json (T : Type 0) : Type 0 where
  pub to_vec : T → Option Bytes
  pub from_slice : Bytes → Option T

-- A value that was written is read back.
pub record IsJson {T : Type 0} (json : Json T) : Type 0 where
  pub from_slice-to_vec : (t : T) (x : Bytes) → json.to_vec t ≡ some x → json.from_slice x ≡ some t
