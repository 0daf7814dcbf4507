-- ===== src/Env/Reserved.antt =====
-- What `filter_caller_env` of src/env.rs lets through, against the list of reserved names.
use mathlib.Core.List.{Memᴰ}
use arapuca.Prelude.{
  ◌≡◌, refl, sym, ap, ◌∙◌, ◌↔◌, ◌⊎◌, inl, inr, List, [], ◌∷◌, ◌++◌, Bool, true, false, not, ◌||◌,
  Option, none, some, Str, codes, beq, beq_ne, beq_sound, beq_refl, any, any_sound, any_complete,
  keep, map, starts_with, starts_with_sound, starts_with-append, Bool-cases, Option-cases,
}
use arapuca.Env.{Variable, env_var, or_else, set_here}
use arapuca.Env.Filter.{
  DropReason, arapuca_prefix, launcher_reserved, ld_prefix, dyld_prefix, dotnet_prefix,
  interpreter_injection, shell_injection, windows_shim_injection, runtime_injection, is_one_of,
  interpreter_names, shell_names, libc_names, tool_names, proxy_names, first_of, drop_tests,
  drop_reason, sort_out, filter_caller_env,
}

-- A reserved name, or the prefix of reserved names.
pub data Reservation : Type 0 where
  whole prefixed : Str → Reservation

abbrev pub reservations : List Reservation
reservations =
    prefixed (codes "ARAPUCA_")
    ∷ whole (codes "AGENT_NETWORK_PROXY")
    ∷ prefixed (codes "LD_")
    ∷ prefixed (codes "DYLD_")
    ∷ prefixed (codes "COR_")
    ∷ prefixed (codes "CORECLR_")
    ∷ prefixed (codes "DOTNET_")
    ∷ prefixed (codes "COMPLUS_")
    ∷ whole (codes "__COMPAT_LAYER")
    ∷ (map whole interpreter_names
        ++ (map whole shell_names
            ++ (map whole libc_names ++ (map whole tool_names ++ (map whole proxy_names ++ [])))))

abbrev pub Covers : Str → Reservation → Type 0
Covers key (whole name) = key ≡ name
Covers key (prefixed p) = (rest : Str) × (key ≡ p ++ rest)

abbrev pub IsReserved : Str → Type 0
IsReserved key = (r : Reservation) × Memᴰ r reservations × Covers key r

unfoldable pub covers : Str → Reservation → Bool
covers key (whole name) = beq key name
covers key (prefixed p) = starts_with p key

unfoldable pub is_reserved : Str → Bool
is_reserved key = any (covers key) reservations

covers_iff : (key : Str) (r : Reservation) → (covers key r ≡ true) ↔ Covers key r
unfolding covers
covers_iff key (whole name) = (beq_sound key name, λ e. rw e (beq_refl name))
covers_iff key (prefixed p) =
    (starts_with_sound p key, λ (rest, e). rw e (starts_with-append p rest))

is_reserved_iff : (key : Str) → (is_reserved key ≡ true) ↔ IsReserved key
unfolding is_reserved
is_reserved_iff key = (
  λ h. let (r, m, e) = any_sound (covers key) reservations h in (r, m, (covers_iff key r).0 e),
  λ (r, m, c). any_complete (covers key) m ((covers_iff key r).1 c),
)

-- Whether a reason is found, and whether the name is reserved.
unfoldable pub is_some {ℓ} : {A : Type ℓ} → Option A → Bool
is_some none = false
is_some (some a) = true

or_false : (b : Bool) → (b || false) ≡ b
or_false true = refl
or_false false = refl

first_cases :
    (b : Bool) (why : DropReason) (tests : List (Bool × DropReason)) {y : Bool}
    → is_some (first_of tests) ≡ y
    → is_some (first_of ((b, why) ∷ tests)) ≡ (b || y)
unfolding is_some
first_cases true why tests h = refl
first_cases false why tests h = h

module _ (key : Str) where
  any-append :
      (rs more : List Reservation) (b : Bool)
      → any (covers key) rs ≡ b
      → any (covers key) (rs ++ more) ≡ (b || any (covers key) more)
  any-append [] more b e = rw (← e) refl
  any-append (r ∷ rs) more b e =
      or_step (covers key r) (any (covers key) rs) (any (covers key) more) _ b
        (any-append rs more _ refl) e
    where
      or_step : (a x y z b : Bool) → z ≡ (x || y) → (a || x) ≡ b → (a || z) ≡ (b || y)
      or_step true x y z b e h = cc
      or_step false x y z b e h = cc

  -- A test that holds exactly for the keys that these reservations cover.
  unfoldable Decides : List Reservation → Bool → Type 0
  Decides rs b = any (covers key) rs ≡ b

  -- The tests of the code find a reason exactly for the keys that these reservations cover.
  unfoldable Agree : List (Bool × DropReason) → List Reservation → Type 0
  Agree tests rs = is_some (first_of tests) ≡ any (covers key) rs

  none_left : Agree [] []
  unfolding Agree is_some
  none_left = refl

  -- One test of the code stands for the reservations `rs`.
  test_step :
      (rs more : List Reservation) (b : Bool) (tests : List (Bool × DropReason)) (why : DropReason)
      → Decides rs b
      → Agree tests more
      → Agree ((b, why) ∷ tests) (rs ++ more)
  unfolding Agree Decides is_some
  test_step rs more b tests why e rest = first_cases b why tests rest ∙ sym (any-append rs more b e)

  one_whole : (name : Str) → Decides (whole name ∷ []) (beq key name)
  unfolding Decides covers
  one_whole name = or_false (beq key name)

  one_prefix : (p : Str) → Decides (prefixed p ∷ []) (starts_with p key)
  unfolding Decides covers
  one_prefix p = or_false (starts_with p key)

  four_prefixes :
      (p q r s : Str)
      → Decides
          (prefixed p ∷ prefixed q ∷ prefixed r ∷ prefixed s ∷ [])
          (starts_with p key || starts_with q key || starts_with r key || starts_with s key)
  unfolding Decides covers
  four_prefixes p q r s =
      reorder (starts_with p key) (starts_with q key) (starts_with r key) (starts_with s key)
    where
      reorder : (a b c d : Bool) → (a || (b || (c || (d || false)))) ≡ (a || b || c || d)
      reorder true b c d = refl
      reorder false true c d = refl
      reorder false false true d = refl
      reorder false false false d = or_false d

  all_whole : (names : List Str) → Decides (map whole names) (is_one_of names key)
  unfolding Decides covers
  all_whole [] = refl
  all_whole (n ∷ names) = ap (λ b. beq key n || b) (all_whole names)

  drop_tests-Agree : Agree (drop_tests key) reservations
  unfolding drop_tests
  drop_tests-Agree = test_step _ _ _ _ arapuca_prefix (one_prefix (codes "ARAPUCA_")) (
      test_step _ _ _ _ launcher_reserved (one_whole (codes "AGENT_NETWORK_PROXY")) (
        test_step _ _ _ _ ld_prefix (one_prefix (codes "LD_")) (
          test_step _ _ _ _ dyld_prefix (one_prefix (codes "DYLD_")) (
            test_step _ _ _ _ dotnet_prefix
              (four_prefixes (codes "COR_") (codes "CORECLR_") (codes "DOTNET_") (codes "COMPLUS_"))
              (test_step _ _ _ _ windows_shim_injection (one_whole (codes "__COMPAT_LAYER")) (
                test_step _ _ _ _ interpreter_injection (all_whole interpreter_names) (
                  test_step _ _ _ _ shell_injection (all_whole shell_names) (
                    test_step _ _ _ _ runtime_injection (all_whole libc_names) (
                      test_step _ _ _ _ runtime_injection (all_whole tool_names) (
                        test_step _ _ _ _ runtime_injection (all_whole proxy_names)
                          none_left))))))))))

  drop_reason-is_reserved : is_some (drop_reason key) ≡ is_reserved key
  unfolding Agree is_reserved drop_reason
  drop_reason-is_reserved = drop_tests-Agree

-- What one variable does to the result.
sorted_by_name :
    (v : Variable)
    → ((drop_reason v.0 ≡ none) × (is_reserved v.0 ≡ false))
      ⊎ ((why : DropReason) × (drop_reason v.0 ≡ some why) × (is_reserved v.0 ≡ true))
unfolding is_some
sorted_by_name v = elim (Option-cases (drop_reason v.0)) [
  | inl e ↦ inl (e, cc (drop_reason-is_reserved v.0))
  | inr (why, e) ↦ inr (why, e, cc (drop_reason-is_reserved v.0))
]

-- The filter passes exactly the variables whose name is not reserved, in the order of the caller,
-- and reports exactly the others' names, in that order too. A name is reserved if it is one of the
-- listed names or begins with one of the listed prefixes.
pub filter_caller_env-IsReserved :
    (env : List Variable)
    → ((filter_caller_env env).passed ≡ keep (λ v. not (is_reserved v.0)) env)
      × (map (λ d. d.key) (filter_caller_env env).dropped
          ≡ map (λ v. v.0) (keep (λ v. is_reserved v.0) env))
      × ((key : Str) → (is_reserved key ≡ true) ↔ IsReserved key)
unfolding filter_caller_env sort_out
filter_caller_env-IsReserved env = (passes env, drops env, is_reserved_iff)
  where
    passes :
        (env : List Variable)
        → (filter_caller_env env).passed ≡ keep (λ v. not (is_reserved v.0)) env
    passes [] = refl
    passes (v ∷ env) = elim (sorted_by_name v) [
      | inl (e, r) ↦ rw (e, r) (ap (◌∷◌ v) (passes env))
      | inr (why, e, r) ↦ rw (e, r) (passes env)
    ]

    drops :
        (env : List Variable)
        → map (λ d. d.key) (filter_caller_env env).dropped
          ≡ map (λ v. v.0) (keep (λ v. is_reserved v.0) env)
    drops [] = refl
    drops (v ∷ env) = elim (sorted_by_name v) [
      | inl (e, r) ↦ rw (e, r) (drops env)
      | inr (why, e, r) ↦ rw (e, r) (ap (◌∷◌ v.0) (drops env))
    ]

-- A reserved name is not set by what the filter passes.
pub env_var-passed :
    (name : Str) (env : List Variable)
    → is_reserved name ≡ true
    → env_var name (filter_caller_env env).passed ≡ none
unfolding env_var or_else set_here
env_var-passed name env h = rw ((filter_caller_env-IsReserved env).0) (hidden env)
  where
    hidden : (env : List Variable) → env_var name (keep (λ v. not (is_reserved v.0)) env) ≡ none
    hidden [] = refl
    hidden (v ∷ env) = elim (Bool-cases (is_reserved v.0)) [
      | inl e ↦ rw e (hidden env)
      | inr e ↦
          let other : beq v.0 name ≡ false = beq_ne v.0 name (λ same. cc) in
          rw e (rw (hidden env) (rw other refl))
    ]
