-- ===== src/Seccomp/Policy.antt =====
-- What src/seccomp.rs means to do with a system call, in the terms of the calls' arguments, and the
-- rules that do it.
use Prim.Native.Nat.{bit_and}
use arapuca.Prelude.{
  ℕ, ◌%◌, ◌^◌, ◌≡◌, refl, ap, ◌∙◌, List, [], ◌∷◌, Bool, true, false, not, ◌&&◌, ◌||◌, ◌==◌, any,
}
use arapuca.Prelude.Bits.{bit, masked_bit}
use arapuca.Seccomp.Kernel.{Call, hit, holds, compares, operand}
use arapuca.Seccomp.Filters.{
  socket_rules, prctl_rules, execveat_rules, ioctl_rules, kill_rules, clone_ns_flags, clone_rules,
}
use arapuca.Seccomp.Numbers.{
  af_inet, af_inet6, pr_set_pdeathsig, pr_set_dumpable, tiocsti, tioclinux,
}

-- An argument of 32 bits.
abbrev pub low : ℕ → ℕ
low x = x % 2 ^ 32

abbrev pub is_internet : Call → Bool
is_internet c = low (c.arg 0) == af_inet || low (c.arg 0) == af_inet6

abbrev pub sets_protected : Call → Bool
sets_protected c =
    low (c.arg 0) == pr_set_pdeathsig
    || (low (c.arg 0) == pr_set_dumpable && not (low (c.arg 1) == 0))

-- The flag is bit 12.
abbrev pub has_empty_path : Call → Bool
has_empty_path c = bit 12 (low (c.arg 4)) == 1

abbrev pub injects_input : Call → Bool
injects_input c = low (c.arg 1) == tiocsti || low (c.arg 1) == tioclinux

-- A process number of 32 bits that is zero or, its sign bit set, negative.
abbrev pub signals_group : Call → Bool
signals_group c = low (c.arg 0) == 0 || bit 31 (low (c.arg 0)) == 1

-- The bits of the flags for namespaces.
abbrev pub namespace_bits : List ℕ
namespace_bits = 17 ∷ 25 ∷ 26 ∷ 27 ∷ 28 ∷ 29 ∷ 30 ∷ 7 ∷ []

abbrev pub makes_namespace : Call → Bool
makes_namespace c = any (λ k. bit k (c.arg 0) == 1) namespace_bits

pub or_false : (b : Bool) → (b || false) ≡ b
or_false true = refl
or_false false = refl

pub and_true : (b : Bool) → (b && true) ≡ b
and_true true = refl
and_true false = refl

pub hit-socket_rules : (c : Call) → hit c socket_rules ≡ is_internet c
unfolding hit socket_rules holds compares operand
hit-socket_rules c =
    rw
      (
        and_true (low (c.arg 0) == af_inet),
        and_true (low (c.arg 0) == af_inet6),
        or_false (low (c.arg 0) == af_inet6),
      )
      refl

pub hit-prctl_rules : (c : Call) → hit c prctl_rules ≡ sets_protected c
unfolding hit prctl_rules holds compares operand
hit-prctl_rules c =
    rw
      (
        and_true (low (c.arg 0) == pr_set_pdeathsig),
        and_true (not (low (c.arg 1) == 0)),
        or_false (low (c.arg 0) == pr_set_dumpable && not (low (c.arg 1) == 0)),
      )
      refl

pub hit-execveat_rules : (c : Call) → hit c execveat_rules ≡ has_empty_path c
unfolding hit execveat_rules holds compares operand
hit-execveat_rules c =
    rw
      (
        and_true (bit_and (low (c.arg 4)) 0x1000 == 0x1000),
        or_false (bit_and (low (c.arg 4)) 0x1000 == 0x1000),
      )
      (masked_bit 12 (low (c.arg 4)))

pub hit-ioctl_rules : (c : Call) → hit c ioctl_rules ≡ injects_input c
unfolding hit ioctl_rules holds compares operand
hit-ioctl_rules c =
    rw
      (
        and_true (low (c.arg 1) == tiocsti),
        and_true (low (c.arg 1) == tioclinux),
        or_false (low (c.arg 1) == tioclinux),
      )
      refl

pub hit-kill_rules : (c : Call) → hit c kill_rules ≡ signals_group c
unfolding hit kill_rules holds compares operand
hit-kill_rules c =
    rw
      (
        and_true (low (c.arg 0) == 0),
        and_true (bit_and (low (c.arg 0)) 0x8000_0000 == 0x8000_0000),
        or_false (bit_and (low (c.arg 0)) 0x8000_0000 == 0x8000_0000),
      )
      (ap (λ t. low (c.arg 0) == 0 || t) (masked_bit 31 (low (c.arg 0))))

-- One flag.
flag_hit : (k flags : ℕ) → ((bit_and flags (2 ^ k) == 2 ^ k) && true) ≡ (bit k flags == 1)
flag_hit k flags = and_true (bit_and flags (2 ^ k) == 2 ^ k) ∙ masked_bit k flags

pub hit-clone_rules : (c : Call) → hit c clone_rules ≡ makes_namespace c
unfolding hit clone_rules clone_ns_flags holds compares operand
hit-clone_rules c =
    let f = c.arg 0 in
    rw
      (
        flag_hit 17 f,
        flag_hit 25 f,
        flag_hit 26 f,
        flag_hit 27 f,
        flag_hit 28 f,
        flag_hit 29 f,
        flag_hit 30 f,
        flag_hit 7 f,
      )
      refl
