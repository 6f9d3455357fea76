-- ===== src/Platform.antt =====
-- What the ledger takes from outside the repository: the case tables of Unicode, the arithmetic of
-- `f64`, and `serde_json`'s parser. Each is an argument of the definitions that use it.
use nocturnal_discord.Prelude.{ℕ, Bool, Option, String, Ordering}
use nocturnal_discord.Prelude.Int.{ℤ}
use nocturnal_discord.Event.{F64}
use Prim.Native.Char.{Char}

-- `Result<Value, Error>`: a parsed text, or the error as it is displayed.
pub data JsonResult (A : Type 0) : Type 0 where
  parsed : A → JsonResult A
  failed : (message : String) → JsonResult A

pub record Platform : Type 1 where
  -- `str::to_lowercase`, `char::to_uppercase` and `char::to_lowercase`
  pub to_lowercase : String → String
  pub char_to_uppercase : Char → String
  pub char_to_lowercase : Char → String
  -- `u64 as f64`, the operators, `f64::floor`, `f64 as i64`
  pub f64_of : ℕ → F64
  pub add_f64 : F64 → F64 → F64
  pub div_f64 : F64 → F64 → F64
  pub mul_f64 : F64 → F64 → F64
  pub floor_f64 : F64 → F64
  pub max_f64 : F64 → F64 → F64
  pub neg_infinity : F64
  pub eq_f64 : F64 → F64 → Bool
  pub total_cmp : F64 → F64 → Ordering
  pub f64_as_i64 : F64 → ℤ
  -- `serde_json::from_str`, with its message on an error, and the accessors of `Value`
  pub Json : Type 0
  pub from_str : String → JsonResult Json
  pub member : Json → String → Option Json
  pub as_str : Json → Option String
  pub is_array : Json → Bool
