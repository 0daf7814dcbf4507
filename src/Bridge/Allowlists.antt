-- ===== src/Bridge/Allowlists.antt =====
-- The allowlists of src/bridge.rs as predicates on system calls.
use arapuca.Prelude.{◌≡◌, refl, [], Bool, ◌&&◌, ◌||◌, ◌==◌}
use arapuca.Seccomp.Kernel.{Call, matched, insert, get}
use arapuca.Seccomp.Filters.{insert_all}
use arapuca.Seccomp.Numbers.{sys_socket, sys_prctl, sys_ioctl, sys_clone, sys_clone3}
use arapuca.Seccomp.Chains.{
  is_among, matched-insert, matched-insert_bare, matched-listed, matched-listed_on,
}
use arapuca.Bridge.Numbers.{sys_mprotect}
use arapuca.Bridge.Groups.{
  io_calls, poll_calls, thread_calls, memory_calls, signal_calls, exit_calls, file_calls,
  runtime_calls, dns_calls, proxy_runtime_calls,
}
use arapuca.Bridge.Filters.{
  thread_rules, mprotect_rules, socket_unix_rules, naming_rules, bridge_rules, ioctl_read_rules,
  proxy_socket_rules, proxy_rules,
}
use arapuca.Bridge.Permits.{
  makes_thread, not_executable, is_local, names_something, reads_size, is_local_or_internet,
  hit-thread_rules, hit-mprotect_rules, hit-socket_unix_rules, hit-naming_rules,
  hit-ioctl_read_rules, hit-proxy_socket_rules,
}

-- The calls of the bridge's allowlist.
unfoldable pub bridge_permits : Call → Bool
bridge_permits c =
    is_among c.nr io_calls
    || is_among c.nr poll_calls
    || is_among c.nr thread_calls
    || (c.nr == sys_clone && makes_thread c)
    || c.nr == sys_clone3
    || is_among c.nr memory_calls
    || (c.nr == sys_mprotect && not_executable c)
    || is_among c.nr signal_calls
    || is_among c.nr exit_calls
    || (c.nr == sys_socket && is_local c)
    || is_among c.nr file_calls
    || is_among c.nr runtime_calls
    || (c.nr == sys_prctl && names_something c)

pub matched-bridge_rules : (c : Call) → matched c bridge_rules ≡ bridge_permits c
unfolding bridge_rules bridge_permits get insert insert_all io_calls poll_calls thread_calls
    memory_calls signal_calls exit_calls file_calls runtime_calls
matched-bridge_rules c =
    let r1 = insert_all io_calls [] in
    let r2 = insert_all poll_calls r1 in
    let r3 = insert_all thread_calls r2 in
    let r4 = insert sys_clone thread_rules r3 in
    let r5 = insert sys_clone3 [] r4 in
    let r6 = insert_all memory_calls r5 in
    let r7 = insert sys_mprotect mprotect_rules r6 in
    let r8 = insert_all signal_calls r7 in
    let r9 = insert_all exit_calls r8 in
    let r10 = insert sys_socket socket_unix_rules r9 in
    let r11 = insert_all file_calls r10 in
    let r12 = insert_all runtime_calls r11 in
    let m1 = matched-listed c io_calls in
    let m2 = matched-listed_on c poll_calls r1 _ m1 in
    let m3 = matched-listed_on c thread_calls r2 _ m2 in
    let m4 = matched-insert c sys_clone thread_rules r3 _ _ refl m3 (hit-thread_rules c) in
    let m5 = matched-insert_bare c sys_clone3 r4 _ m4 in
    let m6 = matched-listed_on c memory_calls r5 _ m5 in
    let m7 = matched-insert c sys_mprotect mprotect_rules r6 _ _ refl m6 (hit-mprotect_rules c) in
    let m8 = matched-listed_on c signal_calls r7 _ m7 in
    let m9 = matched-listed_on c exit_calls r8 _ m8 in
    let m10 =
      matched-insert c sys_socket socket_unix_rules r9 _ _ refl m9 (hit-socket_unix_rules c) in
    let m11 = matched-listed_on c file_calls r10 _ m10 in
    let m12 = matched-listed_on c runtime_calls r11 _ m11 in
    matched-insert c sys_prctl naming_rules r12 _ _ refl m12 (hit-naming_rules c)

-- The calls of the proxy's allowlist.
unfoldable pub proxy_permits : Call → Bool
proxy_permits c =
    is_among c.nr io_calls
    || is_among c.nr poll_calls
    || is_among c.nr dns_calls
    || (c.nr == sys_ioctl && reads_size c)
    || is_among c.nr file_calls
    || is_among c.nr thread_calls
    || (c.nr == sys_clone && makes_thread c)
    || c.nr == sys_clone3
    || is_among c.nr memory_calls
    || (c.nr == sys_mprotect && not_executable c)
    || is_among c.nr signal_calls
    || is_among c.nr exit_calls
    || (c.nr == sys_socket && is_local_or_internet c)
    || is_among c.nr proxy_runtime_calls
    || (c.nr == sys_prctl && names_something c)

pub matched-proxy_rules : (c : Call) → matched c proxy_rules ≡ proxy_permits c
unfolding proxy_rules proxy_permits get insert insert_all io_calls poll_calls dns_calls thread_calls
    memory_calls signal_calls exit_calls file_calls proxy_runtime_calls
matched-proxy_rules c =
    let r1 = insert_all io_calls [] in
    let r2 = insert_all poll_calls r1 in
    let r3 = insert_all dns_calls r2 in
    let r4 = insert sys_ioctl ioctl_read_rules r3 in
    let r5 = insert_all file_calls r4 in
    let r6 = insert_all thread_calls r5 in
    let r7 = insert sys_clone thread_rules r6 in
    let r8 = insert sys_clone3 [] r7 in
    let r9 = insert_all memory_calls r8 in
    let r10 = insert sys_mprotect mprotect_rules r9 in
    let r11 = insert_all signal_calls r10 in
    let r12 = insert_all exit_calls r11 in
    let r13 = insert sys_socket proxy_socket_rules r12 in
    let r14 = insert_all proxy_runtime_calls r13 in
    let m1 = matched-listed c io_calls in
    let m2 = matched-listed_on c poll_calls r1 _ m1 in
    let m3 = matched-listed_on c dns_calls r2 _ m2 in
    let m4 = matched-insert c sys_ioctl ioctl_read_rules r3 _ _ refl m3 (hit-ioctl_read_rules c) in
    let m5 = matched-listed_on c file_calls r4 _ m4 in
    let m6 = matched-listed_on c thread_calls r5 _ m5 in
    let m7 = matched-insert c sys_clone thread_rules r6 _ _ refl m6 (hit-thread_rules c) in
    let m8 = matched-insert_bare c sys_clone3 r7 _ m7 in
    let m9 = matched-listed_on c memory_calls r8 _ m8 in
    let m10 = matched-insert c sys_mprotect mprotect_rules r9 _ _ refl m9 (hit-mprotect_rules c) in
    let m11 = matched-listed_on c signal_calls r10 _ m10 in
    let m12 = matched-listed_on c exit_calls r11 _ m11 in
    let m13 =
      matched-insert c sys_socket proxy_socket_rules r12 _ _ refl m12 (hit-proxy_socket_rules c) in
    let m14 = matched-listed_on c proxy_runtime_calls r13 _ m13 in
    matched-insert c sys_prctl naming_rules r14 _ _ refl m14 (hit-naming_rules c)
