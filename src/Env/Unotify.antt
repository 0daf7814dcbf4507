-- ===== src/Env/Unotify.antt =====
-- The variable of src/env.rs that tells the wrapper process what its audit supervisor watches.
use arapuca.Prelude.{
  ℕ, ◌≡◌, refl, List, [], ◌∷◌, ◌++◌, Bool, true, false, not, ◌&&◌, ◌||◌, Option, none, some,
  if◌then◌else◌, Str, codes, beq, split, join, strip_prefix, starts_with,
}
use arapuca.Prelude.Decimal.{to_string, print_digits, parse_unsigned, fitting, read_digits}
use arapuca.Profile.{Profile}
use arapuca.Env.{Variable}
use arapuca.Env.Channels.{bridge_port}
use arapuca.Prelude.Cut.{max_u16}

pub record UnotifyConfig : Type 0 where
  pub audit_file_access : Bool
  pub audit_network : Bool
  pub bridge_port : Option ℕ
  pub dns_port : Option ℕ
  pub enforce_network : Bool

abbrev part_if : Bool → List Str → List Str
part_if true parts = parts
part_if false parts = []

unfoldable pub unotify_parts :
    (audit_file_access audit_network use_netns dns_capture : Bool) → List Str
unotify_parts audit_file_access audit_network use_netns dns_capture =
    part_if audit_file_access (codes "file" ∷ [])
    ++ (part_if audit_network (codes "network" ∷ [])
        ++ (part_if (audit_network && use_netns)
              ((codes "bridge_port=" ++ to_string bridge_port) ∷ codes "enforce" ∷ [])
            ++ part_if (dns_capture && use_netns) (codes "dns_port=53" ∷ [])))

unfoldable pub unotify_env : Profile → Option Variable
unotify_env profile =
    if not profile.audit_file_access && not profile.audit_network
    then none
    else some (
      codes "ARAPUCA_UNOTIFY_CONFIG",
      join b',' (
          unotify_parts profile.audit_file_access profile.audit_network profile.use_netns
            profile.dns_capture),
    )

-- `s.strip_prefix(prefix).and_then(|p| p.parse().ok())`.
unfoldable pub port_behind : Str → Str → Option ℕ
port_behind prefix s = elim (strip_prefix prefix s) [
  | none ↦ none
  | some p ↦ parse_unsigned max_u16 p
]

-- One round of the loop of `parse_unotify_config`.
unfoldable pub read_part : UnotifyConfig → Str → UnotifyConfig
read_part cfg part =
    if beq part (codes "file")
    then record cfg { audit_file_access = true }
    else if beq part (codes "network")
    then record cfg { audit_network = true }
    else if beq part (codes "enforce")
    then record cfg { enforce_network = true }
    else if starts_with (codes "bridge_port=") part
    then record cfg { bridge_port = port_behind (codes "bridge_port=") part }
    else if starts_with (codes "dns_port=") part
    then record cfg { dns_port = port_behind (codes "dns_port=") part }
    else cfg

unfoldable pub read_parts : UnotifyConfig → List Str → UnotifyConfig
read_parts cfg [] = cfg
read_parts cfg (part ∷ parts) = read_parts (read_part cfg part) parts

abbrev no_audit : UnotifyConfig
no_audit = record {
  audit_file_access = false;
  audit_network = false;
  bridge_port = none;
  dns_port = none;
  enforce_network = false;
}

-- The configuration, if there is something to watch.
unfoldable pub worth_starting : UnotifyConfig → Option UnotifyConfig
worth_starting cfg = if not cfg.audit_file_access && not cfg.audit_network then none else some cfg

unfoldable pub parse_unotify_config : Option Str → Option UnotifyConfig
parse_unotify_config none = none
parse_unotify_config (some val) = worth_starting (read_parts no_audit (split b',' val))

-- What the supervisor of a profile is to do.
abbrev pub supervision :
    (audit_file_access audit_network use_netns dns_capture : Bool) → UnotifyConfig
supervision audit_file_access audit_network use_netns dns_capture = record {
  audit_file_access = audit_file_access;
  audit_network = audit_network;
  bridge_port = if audit_network && use_netns then some bridge_port else none;
  dns_port = if dns_capture && use_netns then some 53 else none;
  enforce_network = audit_network && use_netns;
}

abbrev pub value_of : Option Variable → Option Str
value_of none = none
value_of (some v) = some v.1

-- The supervisor starts exactly if the profile asks for an audit, and it gets the profile's
-- settings: it enforces, and lets the bridge's port through, where the network is audited inside a
-- network namespace.
pub parse_unotify_config-unotify_env :
    (profile : Profile)
    → parse_unotify_config (value_of (unotify_env profile)) ≡ (
        if profile.audit_file_access || profile.audit_network
        then some (
            supervision profile.audit_file_access profile.audit_network profile.use_netns
              profile.dns_capture)
        else none)
unfolding unotify_env parse_unotify_config worth_starting read_parts read_part port_behind
    unotify_parts to_string print_digits parse_unsigned fitting read_digits
parse_unotify_config-unotify_env profile =
    of_flags profile.audit_file_access profile.audit_network profile.use_netns profile.dns_capture
  where
    of_flags :
        (f n s d : Bool)
        → parse_unotify_config (
            value_of (
              if not f && not n
              then none
              else some (codes "ARAPUCA_UNOTIFY_CONFIG", join b',' (unotify_parts f n s d))))
          ≡ (if f || n then some (supervision f n s d) else none)
    of_flags false false s d = refl
    of_flags true false false false = refl
    of_flags true false false true = refl
    of_flags true false true false = refl
    of_flags true false true true = refl
    of_flags false true false false = refl
    of_flags false true false true = refl
    of_flags false true true false = refl
    of_flags false true true true = refl
    of_flags true true false false = refl
    of_flags true true false true = refl
    of_flags true true true false = refl
    of_flags true true true true = refl
