-- ===== src/Env.antt =====
-- Environment variables of src/env.rs and of the code that reads them back: an environment is the
-- list of the variables set, one after the other, and the last one of a name counts.
pub mod Filter
pub mod Reserved
pub mod Wrapper
pub mod PathLists
pub mod Channels
pub mod Unotify
pub mod ConnectProxy
pub mod Launch
mod Tests
use arapuca.Prelude.{
  ℕ, ◌≡◌, refl, ◌∙◌, List, [], ◌∷◌, ◌++◌, Bool, true, false, Option, none, some, if◌then◌else◌, Str,
  beq, Bool-cases, inl, inr,
}

abbrev pub Variable : Type 0
Variable = Str × Str

-- What stands under the first of two results that has one.
unfoldable pub or_else {ℓ} : {A : Type ℓ} → Option A → Option A → Option A
or_else (some a) other = some a
or_else none other = other

-- One `Command::env`, seen from a look-up of `name`.
unfoldable pub set_here : Str → Variable → Option Str
set_here name (key, value) = if beq key name then some value else none

-- `std::env::var` in a child with these variables.
unfoldable pub env_var : Str → List Variable → Option Str
env_var name [] = none
env_var name (v ∷ vars) = or_else (env_var name vars) (set_here name v)

or_else_assoc {ℓ} :
    {A : Type ℓ} (a b c : Option A) → or_else (or_else a b) c ≡ or_else a (or_else b c)
unfolding or_else
or_else_assoc none b c = refl
or_else_assoc (some x) b c = refl

pub or_else-none {ℓ} : {A : Type ℓ} (a : Option A) → or_else a none ≡ a
unfolding or_else
or_else-none none = refl
or_else-none (some x) = refl

-- Variables set later hide those set before.
pub env_var-append :
    (name : Str) (xs ys : List Variable)
    → env_var name (xs ++ ys) ≡ or_else (env_var name ys) (env_var name xs)
unfolding env_var
env_var-append name [] ys = rw (or_else-none (env_var name ys)) refl
env_var-append name (v ∷ xs) ys =
    rw (env_var-append name xs ys)
      (or_else_assoc (env_var name ys) (env_var name xs) (set_here name v))

-- A variable that is not among the later ones has the value that the earlier ones give it.
pub env_var-skip :
    (name : Str) (xs ys : List Variable)
    → env_var name ys ≡ none
    → env_var name (xs ++ ys) ≡ env_var name xs
unfolding or_else
env_var-skip name xs ys h = env_var-append name xs ys ∙ rw h refl

-- A variable that is among the later ones has their value.
pub env_var-found :
    (name : Str) (xs ys : List Variable) {value : Str}
    → env_var name ys ≡ some value
    → env_var name (xs ++ ys) ≡ some value
unfolding or_else
env_var-found name xs ys h = env_var-append name xs ys ∙ rw h refl

pub env_var-none :
    (name : Str) (xs ys : List Variable)
    → env_var name xs ≡ none
    → env_var name ys ≡ none
    → env_var name (xs ++ ys) ≡ none
env_var-none name xs ys h k = env_var-skip name xs ys k ∙ h

pub env_var-pass :
    (name : Str) (xs ys : List Variable)
    → env_var name xs ≡ none
    → env_var name (xs ++ ys) ≡ env_var name ys
env_var-pass name xs ys h = env_var-append name xs ys ∙ rw h (or_else-none (env_var name ys))

abbrev pub IsOther : Str → Str → Type 0
IsOther name key = beq key name ≡ false

pub set_other :
    (name : Str) (v : Variable) (vars : List Variable)
    → beq v.0 name ≡ false
    → env_var name vars ≡ none
    → env_var name (v ∷ vars) ≡ none
unfolding env_var or_else set_here
set_other name v vars h k = rw (k, h) refl

pub env_var-nil : (name : Str) → env_var name [] ≡ none
unfolding env_var
env_var-nil name = refl
