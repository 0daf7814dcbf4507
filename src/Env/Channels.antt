-- ===== src/Env/Channels.antt =====
-- The variables of src/env.rs and src/bridge.rs that carry the settings of the proxy bridge, of the
-- audit supervisor and of the CONNECT proxy to the process that reads them back.
use arapuca.Prelude.{
  ℕ, [], ◌∷◌, ◌++◌, Bool, true, false, Option, none, some, Result, ok, ◌>>=◌, ◌>>◌, reject, ok_or,
  ◌==◌, Str, codes, beq, contains, reject-eq-ok, beq_ne, ◌≡◌, ◌≢◌, refl,
}
use arapuca.Prelude.Cut.{max_u16, split_once}
use arapuca.Prelude.Decimal.{to_string, print_digits, parse_unsigned, fitting, read_digits}
use arapuca.Error.{Error, validation}
use arapuca.Env.{Variable}

abbrev pub bridge_port : ℕ
bridge_port = 18080

unfoldable pub bridge_env : Bool → Option Str → Result Error (Option Variable)
bridge_env use_netns none = ok none
bridge_env false (some socket) = ok none
bridge_env true (some socket) = do
  reject (contains b':' socket) (validation "proxy socket path must not contain colons")
  ok (some (codes "ARAPUCA_PROXY_BRIDGE", to_string bridge_port ++ b':' ∷ socket))

-- The port and the path of a bridge, if the variable is set.
unfoldable pub parse_bridge_value : Str → Result Error (ℕ × Str)
parse_bridge_value val = do
  (port_str, uds_path) ←
      ok_or (split_once b':' val)
        (validation "invalid ARAPUCA_PROXY_BRIDGE format (expected port:path)")
  reject (beq uds_path []) (validation "invalid ARAPUCA_PROXY_BRIDGE format (expected port:path)")
  port ← ok_or (parse_unsigned max_u16 port_str) (validation "invalid bridge port")
  reject (port == 0) (validation "bridge port must be non-zero")
  ok (port, uds_path)

unfoldable pub parse_bridge_env : Option Str → Result Error (Option (ℕ × Str))
parse_bridge_env none = ok none
parse_bridge_env (some val) = do p ← parse_bridge_value val; ok (some p)

-- The bridge that the parameters of `bridge_env` ask for.
abbrev pub bridge_of : Bool → Option Str → Option (ℕ × Str)
bridge_of true (some socket) = some (bridge_port, socket)
bridge_of true none = none
bridge_of false socket = none

abbrev pub IsNamed : Option Str → Type 0
IsNamed none = Unit
IsNamed (some socket) = socket ≢ []

parse_bridge_value-bridge :
    (socket : Str)
    → socket ≢ []
    → parse_bridge_value (to_string bridge_port ++ b':' ∷ socket) ≡ ok (bridge_port, socket)
unfolding parse_bridge_value split_once to_string print_digits parse_unsigned fitting read_digits
parse_bridge_value-bridge socket filled = rw (beq_ne socket [] filled) refl

abbrev pub bridge_text : Option (ℕ × Str) → Option Str
bridge_text none = none
bridge_text (some (port, path)) = some (to_string port ++ b':' ∷ path)

abbrev pub bridge_name : Str
bridge_name = codes "ARAPUCA_PROXY_BRIDGE"

-- A variable that is set if there is a value for it.
abbrev pub named : Str → Option Str → Option Variable
named name none = none
named name (some value) = some (name, value)

-- What a bridge that is not refused is set to.
pub bridge_env-ok :
    (use_netns : Bool) (socket : Option Str) (bridge : Option Variable)
    → bridge_env use_netns socket ≡ ok bridge
    → bridge ≡ named bridge_name (bridge_text (bridge_of use_netns socket))
unfolding bridge_env
bridge_env-ok true none bridge h = cc
bridge_env-ok false none bridge h = cc
bridge_env-ok false (some socket) bridge h = cc
bridge_env-ok true (some socket) bridge h =
    let passed =
      reject-eq-ok (contains b':' socket) _
        (ok (some (codes "ARAPUCA_PROXY_BRIDGE", to_string bridge_port ++ b':' ∷ socket))) h in
    cc passed.1

-- The bridge is read back.
pub parse_bridge_env-bridge_text :
    (use_netns : Bool) (socket : Option Str)
    → IsNamed socket
    → parse_bridge_env (bridge_text (bridge_of use_netns socket)) ≡ ok (bridge_of use_netns socket)
unfolding parse_bridge_env
parse_bridge_env-bridge_text true none filled = refl
parse_bridge_env-bridge_text false none filled = refl
parse_bridge_env-bridge_text false (some socket) filled = refl
parse_bridge_env-bridge_text true (some socket) filled =
    rw (parse_bridge_value-bridge socket filled) refl
