-- ===== src/Bridge/Permits.antt =====
-- What the conditions of the allowlists of src/bridge.rs say of the arguments.
use Prim.Native.Nat.{bit_and}
use arapuca.Prelude.{◌≡◌, refl, Bool, ◌&&◌, ◌||◌, ◌==◌}
use arapuca.Seccomp.Kernel.{Call, hit, holds, compares, operand}
use arapuca.Seccomp.Numbers.{af_inet, af_inet6}
use arapuca.Seccomp.Policy.{low, or_false, and_true}
use arapuca.Bridge.Filters.{
  clone_thread_flags, clone_ns_mask, af_unix, prot_exec, pr_set_vma, pr_set_name, fionread, fionbio,
  thread_rules, mprotect_rules, socket_unix_rules, naming_rules, ioctl_read_rules,
  proxy_socket_rules,
}

-- `clone` with all the flags of a thread and none of a namespace.
abbrev pub makes_thread : Call → Bool
makes_thread c =
    bit_and (c.arg 0) clone_thread_flags == clone_thread_flags
    && bit_and (c.arg 0) clone_ns_mask == 0

abbrev pub not_executable : Call → Bool
not_executable c = bit_and (low (c.arg 2)) prot_exec == 0

abbrev pub is_local : Call → Bool
is_local c = low (c.arg 0) == af_unix

abbrev pub names_something : Call → Bool
names_something c = low (c.arg 0) == pr_set_vma || low (c.arg 0) == pr_set_name

abbrev pub reads_size : Call → Bool
reads_size c = low (c.arg 1) == fionread || low (c.arg 1) == fionbio

abbrev pub is_local_or_internet : Call → Bool
is_local_or_internet c =
    low (c.arg 0) == af_unix || (low (c.arg 0) == af_inet || low (c.arg 0) == af_inet6)

pub hit-thread_rules : (c : Call) → hit c thread_rules ≡ makes_thread c
unfolding hit thread_rules holds compares operand
hit-thread_rules c =
    rw (and_true (bit_and (c.arg 0) clone_ns_mask == 0), or_false (makes_thread c)) refl

pub hit-mprotect_rules : (c : Call) → hit c mprotect_rules ≡ not_executable c
unfolding hit mprotect_rules holds compares operand
hit-mprotect_rules c = rw (and_true (not_executable c), or_false (not_executable c)) refl

pub hit-socket_unix_rules : (c : Call) → hit c socket_unix_rules ≡ is_local c
unfolding hit socket_unix_rules holds compares operand
hit-socket_unix_rules c = rw (and_true (is_local c), or_false (is_local c)) refl

pub hit-naming_rules : (c : Call) → hit c naming_rules ≡ names_something c
unfolding hit naming_rules holds compares operand
hit-naming_rules c =
    rw
      (
        and_true (low (c.arg 0) == pr_set_vma),
        and_true (low (c.arg 0) == pr_set_name),
        or_false (low (c.arg 0) == pr_set_name),
      )
      refl

pub hit-ioctl_read_rules : (c : Call) → hit c ioctl_read_rules ≡ reads_size c
unfolding hit ioctl_read_rules holds compares operand
hit-ioctl_read_rules c =
    rw
      (
        and_true (low (c.arg 1) == fionread),
        and_true (low (c.arg 1) == fionbio),
        or_false (low (c.arg 1) == fionbio),
      )
      refl

pub hit-proxy_socket_rules : (c : Call) → hit c proxy_socket_rules ≡ is_local_or_internet c
unfolding hit proxy_socket_rules holds compares operand
hit-proxy_socket_rules c =
    rw
      (
        and_true (low (c.arg 0) == af_unix),
        and_true (low (c.arg 0) == af_inet),
        and_true (low (c.arg 0) == af_inet6),
        or_false (low (c.arg 0) == af_inet6),
      )
      refl
