-- ===== src/Seccomp/Kernel.antt =====
-- What src/seccomp.rs builds with the `seccompiler` crate, as data, and what the crate and the
-- kernel document of it: both are parameters of the model, with the documented behaviour as laws.
use Prim.Native.Nat.{bit_and}
use arapuca.Prelude.{
  ℕ, ◌%◌, ◌^◌, ◌≡◌, List, [], ◌∷◌, Bool, true, false, not, Option, none, some, Result, ok, ◌==◌,
  ltb, if◌then◌else◌, Str, any, all,
}

pub data Action : Type 0 where
  allow trap kill_process : Action
  errno : ℕ → Action

pub data CmpArgLen : Type 0 where
  dword qword : CmpArgLen

pub data CmpOp : Type 0 where
  eq ne : CmpOp
  masked_eq : ℕ → CmpOp

-- The arguments of `SeccompCondition::new`.
pub record Condition : Type 0 where
  pub arg_index : ℕ
  pub arg_len : CmpArgLen
  pub operator : CmpOp
  pub value : ℕ

abbrev pub condition : ℕ → CmpArgLen → CmpOp → ℕ → Condition
condition i len op v = record { arg_index = i; arg_len = len; operator = op; value = v }

-- The argument of `SeccompRule::new`: its conditions.
abbrev pub Rule : Type 0
Rule = List Condition

-- A map from system calls to rules, the last inserted in front.
abbrev pub Rules : Type 0
Rules = List (ℕ × List Rule)

-- The arguments of `SeccompFilter::new`.
pub record Filter : Type 0 where
  pub rules : Rules
  pub mismatch_action : Action
  pub match_action : Action

abbrev pub filter : Rules → Action → Action → Filter
filter m mismatch match = record { rules = m; mismatch_action = mismatch; match_action = match }

-- A system call: its number and its six arguments, unsigned and of 64 bits.
pub record Call : Type 0 where
  pub nr : ℕ
  pub arg : ℕ → ℕ

-- `HashMap::insert` and `get`.
unfoldable pub insert : ℕ → List Rule → Rules → Rules
insert nr rs m = (nr, rs) ∷ m

unfoldable pub get : ℕ → Rules → Option (List Rule)
get nr [] = none
get nr ((key, rs) ∷ m) = let rest = get nr m in if nr == key then some rs else rest

-- The documented meaning of a condition: the argument, or its low 32 bits, against the value.
unfoldable pub operand : CmpArgLen → ℕ → ℕ
operand dword x = x % 2 ^ 32
operand qword x = x

unfoldable pub compares : CmpOp → ℕ → ℕ → Bool
compares eq x v = x == v
compares ne x v = not (x == v)
compares (masked_eq mask) x v = bit_and x mask == v

unfoldable pub holds : Call → Condition → Bool
holds c k = compares k.operator (operand k.arg_len (c.arg k.arg_index)) k.value

-- A rule holds if all its conditions do; rules match if one of them holds, or if there are none.
unfoldable pub hit : Call → List Rule → Bool
hit c [] = true
hit c (r ∷ rs) = any (λ rule. all (holds c) rule) (r ∷ rs)

unfoldable pub matched : Call → Rules → Bool
matched c m = elim (get c.nr m) [ none ↦ false | some rs ↦ hit c rs ]

unfoldable pub filter_action : Filter → Call → Action
filter_action f c = if matched c f.rules then f.match_action else f.mismatch_action

-- How restrictive an action is: the kernel's order of precedence.
unfoldable pub precedence : Action → ℕ
precedence allow = 0
precedence (errno e) = 1
precedence trap = 2
precedence kill_process = 3

-- Of two installed filters' actions the more restrictive one counts, and the later filter's where
-- they are equally restrictive.
unfoldable pub stricter : Action → Action → Action
stricter later earlier = if ltb (precedence later) (precedence earlier) then earlier else later

-- The crate and the kernel: their operations and what they document of them.
pub record Seccompiler : Type 1 where
  pub Program : Type 0
  -- `SeccompCondition::new`, `SeccompRule::new`, `SeccompFilter::new` and `try_into`
  pub compile : Filter → Result Str Program
  -- `apply_filter`, on the filters that the process runs under
  pub apply_filter : Program → List Program → Result Str (List Program)
  -- what one program answers, and what the kernel does
  pub answer : Program → Call → Action
  pub verdict : List Program → Call → Action
  -- what is documented of them
  pub compile_answer :
      (f : Filter) (p : Program) → compile f ≡ ok p → (c : Call) → answer p c ≡ filter_action f c
  pub installs : (p : Program) (ps ps' : List Program) → apply_filter p ps ≡ ok ps' → ps' ≡ p ∷ ps
  pub verdict-[] : (c : Call) → verdict [] c ≡ allow
  pub verdict-∷ :
      (p : Program) (ps : List Program) (c : Call)
      → verdict (p ∷ ps) c ≡ stricter (answer p c) (verdict ps c)
