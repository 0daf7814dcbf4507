-- ===== src/Vm/Fields/Rounds.antt =====
-- The rounds of the loop of src/vm/state.rs over the fields of an object, where they are written.
use arapuca.Prelude.{
  ℕ, zero, suc, ◌+◌, ◌≤◌, ◌≡◌, refl, inl, inr, ◌∷◌, Bool, true, false, Option, none, some, Result,
  ok, Str, length, arith, eq-cases, >>=-eq-ok,
}
use arapuca.Protocol.Json.{Failure, skip_ws, expect_byte, json_encode_string}
use arapuca.Protocol.Json.Strings.{parse_string-json_encode_string, skip_ws-json_encode_string}
use arapuca.Protocol.Json.Values.{closes}
use arapuca.Protocol.Request.{separator}
use arapuca.Protocol.Request.Rounds.{field, colon}
use arapuca.Vm.Fields.{OnKey, object_field, object_loop, object_fields, read_object}

module _ {A : Type 0} (on_key : OnKey A) where
  object_field-field :
      (first : Bool) (a a' : A) (key text rest s : Str)
      → separator first s ≡ ok (field key text)
      → skip_ws text ≡ text
      → on_key a key text ≡ ok (a', rest)
      → object_field on_key first a s ≡ ok (a', rest)
  unfolding object_field
  object_field-field first a a' key text rest s e solid read =
      rw
        (
          e,
          skip_ws-json_encode_string key (b':' ∷ text),
          parse_string-json_encode_string key (b':' ∷ text),
          colon text,
          solid,
        )
        read

  pub object_first :
      (k : ℕ) (a a' : A) (key text rest : Str)
      → skip_ws text ≡ text
      → on_key a key text ≡ ok (a', rest)
      → object_fields on_key (suc k) true a (field key text) ≡ object_fields on_key k false a' rest
  unfolding object_fields object_loop separator closes json_encode_string
  object_first k a a' key text rest solid read =
      rw (skip_ws-json_encode_string key (b':' ∷ text))
        (rw (object_field-field true a a' key text rest (field key text) refl solid read) refl)

  pub object_next :
      (k : ℕ) (a a' : A) (key text rest : Str)
      → skip_ws text ≡ text
      → on_key a key text ≡ ok (a', rest)
      → object_fields on_key (suc k) false a (b',' ∷ field key text)
        ≡ object_fields on_key k false a' rest
  unfolding object_fields object_loop separator closes expect_byte skip_ws
  object_next k a a' key text rest solid read =
      rw (object_field-field false a a' key text rest (b',' ∷ field key text) refl solid read) refl

  pub object_last :
      (k : ℕ) (a : A) (rest : Str)
      → object_fields on_key (suc k) false a (b'}' ∷ rest) ≡ ok (a, rest)
  unfolding object_fields object_loop closes skip_ws
  object_last k a rest = refl

  -- More rounds do not change a result.
  object_loop_more :
      (run run' : A → Str → Result Failure (A × Str)) (r : A × Str)
      → ((b : A) (s : Str) → run b s ≡ ok r → run' b s ≡ ok r)
      → (first : Bool) (a : A) (s : Str) (c : Option Str)
      → object_loop on_key run first a s c ≡ ok r
      → object_loop on_key run' first a s c ≡ ok r
  unfolding object_loop
  object_loop_more run run' r more first a s (some rest) h = h
  object_loop_more run run' r more first a s none h =
      let ((a', rest), e, k) = >>=-eq-ok (object_field on_key first a s) _ h in
      rw e (more a' rest k)

  object_fields_more :
      (k : ℕ) (r : A × Str) (first : Bool) (a : A) (s : Str)
      → object_fields on_key k first a s ≡ ok r
      → object_fields on_key (suc k) first a s ≡ ok r
  unfolding object_fields
  object_fields_more zero r first a s h = cc
  object_fields_more (suc k) r first a s h =
      object_loop_more (λ b t. object_fields on_key k false b t)
        (λ b t. object_fields on_key (suc k) false b t) r (λ b t. object_fields_more k r false b t)
        first a (skip_ws s) _ h

  object_fields_le :
      (n k : ℕ) (r : A × Str) (first : Bool) (a : A) (s : Str)
      → k ≤ n
      → object_fields on_key k first a s ≡ ok r
      → object_fields on_key n first a s ≡ ok r
  object_fields_le zero k r first a s q h = let e : k ≡ 0 = omega arith in rw e at h
  object_fields_le (suc n) k r first a s q h = elim (eq-cases k (suc n)) [
    | inl e ↦ rw e at h
    | inr e ↦ object_fields_more n r first a s (object_fields_le n k r first a s (omega arith) h)
  ]

  -- An object is read in any number of rounds that is enough.
  pub read_object-rounds :
      (k : ℕ) (r : A × Str) (a : A) (body : Str)
      → k ≤ length body + 1
      → object_fields on_key k true a body ≡ ok r
      → read_object on_key a (b'{' ∷ body) ≡ ok r
  unfolding read_object expect_byte skip_ws
  read_object-rounds k r a body q h = object_fields_le (length body + 1) k r true a body q h
