-- ===== src/Vm/Fields.antt =====
-- The loops of src/vm/state.rs over the fields of a JSON object: `from_json` and `parse_volume_mount`
-- have the same one, on what each has found so far.
pub mod Rounds
use arapuca.Prelude.{
  ℕ, zero, suc, ◌+◌, Bool, true, false, Option, none, some, Result, ok, err, ◌>>=◌, Str, length,
}
use arapuca.Protocol.Json.{Failure, out_of_rounds, skip_ws, expect_byte, parse_string}
use arapuca.Protocol.Json.Values.{closes}
use arapuca.Protocol.Request.{separator}

-- The `match` on the key, at the value.
abbrev pub OnKey : Type 0 → Type 0
OnKey A = A → Str → Str → Result Failure (A × Str)

-- A field from its comma on.
unfoldable pub object_field : {A : Type 0} → OnKey A → Bool → A → Str → Result Failure (A × Str)
object_field on_key first a s = do
  s' ← separator first s
  (key, rest) ← parse_string (skip_ws s')
  value ← expect_byte b':' (skip_ws rest)
  on_key a key (skip_ws value)

unfoldable pub object_loop :
    {A : Type 0}
    → OnKey A
    → (A → Str → Result Failure (A × Str))
    → Bool
    → A
    → Str
    → Option Str
    → Result Failure (A × Str)
object_loop on_key run first a s (some rest) = ok (a, rest)
object_loop on_key run first a s none = do (a', rest) ← object_field on_key first a s; run a' rest

-- The loop, in rounds.
unfoldable pub object_fields :
    {A : Type 0} → OnKey A → ℕ → Bool → A → Str → Result Failure (A × Str)
object_fields on_key zero first a s = err out_of_rounds
object_fields on_key (suc k) first a s =
    object_loop on_key (λ b r. object_fields on_key k false b r) first a (skip_ws s)
      (closes b'}' (skip_ws s))

-- An object from its brace on. Each round reads at least one character.
unfoldable pub read_object : {A : Type 0} → OnKey A → A → Str → Result Failure (A × Str)
read_object on_key a json = do
  s ← expect_byte b'{' (skip_ws json)
  object_fields on_key (length s + 1) true a s
