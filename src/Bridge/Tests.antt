-- ===== src/Bridge/Tests.antt =====
-- Runs of the helpers' filters of src/bridge.rs, and instances of their theorems.
use arapuca.Prelude.{ℕ, zero, suc, ◌≡◌, refl, List, [], true, false}
use arapuca.Seccomp.Kernel.{allow, Call, Filter, stricter}
use arapuca.Seccomp.Chains.{is_among}
use arapuca.Seccomp.Memory.{stacked, memory_kernel}
use arapuca.Seccomp.Setup.{compiling, installing}
use arapuca.Bridge.Groups.{
  io_calls, poll_calls, thread_calls, memory_calls, signal_calls, exit_calls, file_calls,
  runtime_calls, dns_calls, proxy_runtime_calls,
}
use arapuca.Bridge.Filters.{
  build_bridge_filters, apply_bridge_seccomp, build_connect_proxy_filters,
  apply_connect_proxy_seccomp,
}
use arapuca.Bridge.Allowlists.{bridge_permits, proxy_permits}
use arapuca.Bridge.Verdict.{helper_policy, verdict_bridge, verdict_proxy}

abbrev under_bridge : List Filter
under_bridge = (apply_bridge_seccomp memory_kernel false []).1

abbrev under_proxy : List Filter
under_proxy = (apply_connect_proxy_seccomp memory_kernel false []).1

-- socket(AF_INET)
abbrev first_is_two : ℕ → ℕ
first_is_two zero = 2
first_is_two (suc i) = 0

abbrev socket_inet : Call
socket_inet = record { nr = 41; arg = first_is_two }

bridge_has_no_internet : bridge_permits socket_inet ≡ false
unfolding bridge_permits is_among io_calls poll_calls thread_calls memory_calls signal_calls
    exit_calls file_calls runtime_calls
bridge_has_no_internet = refl

proxy_has_internet : proxy_permits socket_inet ≡ true
unfolding proxy_permits is_among io_calls poll_calls dns_calls thread_calls memory_calls
    signal_calls exit_calls file_calls proxy_runtime_calls
proxy_has_internet = refl

verdict_bridge_example :
    stacked under_bridge socket_inet
    ≡ stricter (helper_policy (bridge_permits socket_inet) false 41) allow
unfolding apply_bridge_seccomp build_bridge_filters compiling installing
verdict_bridge_example = verdict_bridge memory_kernel false [] under_bridge socket_inet refl

verdict_proxy_example :
    stacked under_proxy socket_inet
    ≡ stricter (helper_policy (proxy_permits socket_inet) false 41) allow
unfolding apply_connect_proxy_seccomp build_connect_proxy_filters compiling installing
verdict_proxy_example = verdict_proxy memory_kernel false [] under_proxy socket_inet refl
