-- ===== src/Vm/Config.antt =====
-- `VmConfig` of src/vm/state.rs and its JSON. A path or a name is the list of its characters.
pub mod Values
pub mod Volumes
pub mod Keys
pub mod RoundTrip
use arapuca.Prelude.{
  ℕ, zero, suc, ◌+◌, ◌^◌, ◌%◌, List, [], ◌∷◌, ◌++◌, Bool, true, false, Option, none, some, Result,
  ok, err, ◌>>=◌, ok_or, if◌then◌else◌, Str, Bytes, codes, length, beq,
}
use arapuca.Prelude.Decimal.{to_string}
use arapuca.Protocol.Io.{invalid_data}
use arapuca.Protocol.Json.{
  Failure, error, out_of_rounds, skip_ws, expect_byte, parse_string, json_encode_string,
}
use arapuca.Protocol.Json.Values.{
  parse_bool, parse_u64, skip_value, closes, Next, more, closed, neither, next_of,
}
use arapuca.Protocol.Request.{unwrap_or}
use arapuca.Vm.Fields.{read_object}
use arapuca.Vm.Nonces.{nonce_hex, parse_nonce_hex}

pub record VolumeMount : Type 0 where
  pub host : Str
  pub guest : Str
  pub read_only : Bool

pub record VmConfig : Type 0 where
  pub image : Str
  pub cpus : ℕ
  pub mem_mb : ℕ
  pub net : Bool
  pub volumes : List VolumeMount
  pub nonce : Bytes
  pub passt_pid : Option ℕ
  pub max_lifetime : Option ℕ

unfoldable pub bool_json : Bool → Str
bool_json true = codes "true"
bool_json false = codes "false"

unfoldable pub volume_json : VolumeMount → Str
volume_json v =
    codes "{\"host\":"
    ++ (json_encode_string v.host
        ++ (codes ",\"guest\":"
            ++ (json_encode_string v.guest
                ++ (codes ",\"read_only\":" ++ (bool_json v.read_only ++ codes "}")))))

-- The volumes behind the first.
unfoldable pub more_volumes : List VolumeMount → Str
more_volumes [] = []
more_volumes (v ∷ volumes) = b',' ∷ (volume_json v ++ more_volumes volumes)

unfoldable pub volumes_json : List VolumeMount → Str
volumes_json [] = []
volumes_json (v ∷ volumes) = volume_json v ++ more_volumes volumes

-- A number that may be missing, with the text in front of it.
unfoldable pub number_json : Str → Option ℕ → Str
number_json key none = []
number_json key (some n) = key ++ to_string n

-- `VmConfig::to_json`.
unfoldable pub config_to_json : VmConfig → Str
config_to_json c =
    codes "{\"image\":"
    ++ (json_encode_string c.image
        ++ (codes ",\"cpus\":"
            ++ (to_string c.cpus
                ++ (codes ",\"mem_mb\":"
                    ++ (to_string c.mem_mb
                        ++ (codes ",\"net\":"
                            ++ (bool_json c.net
                                ++ (codes ",\"volumes\":["
                                    ++ (volumes_json c.volumes
                                        ++ (codes "],\"nonce\":\""
                                            ++ (nonce_hex c.nonce
                                                ++ (codes "\""
                                                    ++ (number_json (codes ",\"passt_pid\":")
                                                          c.passt_pid
                                                        ++ (number_json (codes ",\"max_lifetime\":")
                                                            c.max_lifetime
                                                            ++ codes "}"))))))))))))))

-- The local variables of `parse_volume_mount`.
pub record VolumeFields : Type 0 where
  pub host : Option Str
  pub guest : Option Str
  pub read_only : Option Bool

-- A value that is kept, with what is left.
unfoldable pub kept {ℓ ℓ'} :
    {A : Type ℓ} {B : Type ℓ'} → (A → B) → Result Failure (A × Str) → Result Failure (B × Str)
kept put (err e) = err e
kept put (ok (a, rest)) = ok (put a, rest)

-- A value that is dropped.
unfoldable pub dropped {ℓ} : {A : Type ℓ} → A → Result Failure Str → Result Failure (A × Str)
dropped a (err e) = err e
dropped a (ok rest) = ok (a, rest)

unfoldable pub volume_field : VolumeFields → Str → Str → Result Failure (VolumeFields × Str)
volume_field f key s =
    if beq key (codes "host")
    then kept (λ v. record f { host = some v }) (parse_string s)
    else if beq key (codes "guest")
    then kept (λ v. record f { guest = some v }) (parse_string s)
    else if beq key (codes "read_only")
    then kept (λ v. record f { read_only = some v }) (parse_bool s)
    else dropped f (skip_value s)

unfoldable pub volume_of : VolumeFields → Result Failure VolumeMount
volume_of f = do
  host ← ok_or f.host (error invalid_data "missing 'host'")
  guest ← ok_or f.guest (error invalid_data "missing 'guest'")
  ok (record { host = host; guest = guest; read_only = unwrap_or f.read_only false })

unfoldable pub parse_volume_mount : Str → Result Failure (VolumeMount × Str)
parse_volume_mount s = do
  (f, rest) ← read_object volume_field (record { host = none; guest = none; read_only = none }) s
  v ← volume_of f
  ok (v, rest)

-- Where the loop over the volumes goes on.
unfoldable pub after_volume :
    (List VolumeMount → Str → Result Failure (List VolumeMount × Str))
    → List VolumeMount
    → Next
    → Result Failure (List VolumeMount × Str)
after_volume run volumes (more s) = run volumes s
after_volume run volumes (closed s) = ok (volumes, s)
after_volume run volumes neither = err (error invalid_data "expected ',' or ']' in volumes")

-- The loop over the volumes, in rounds. Each round reads at least one character.
unfoldable pub read_volumes : ℕ → List VolumeMount → Str → Result Failure (List VolumeMount × Str)
read_volumes zero volumes s = err out_of_rounds
read_volumes (suc k) volumes s = do
  (v, rest) ← parse_volume_mount s
  after_volume (λ vs r. read_volumes k vs r) (volumes ++ v ∷ []) (next_of b']' (skip_ws rest))

unfoldable pub unless_empty_array :
    List VolumeMount → Str → Option Str → Result Failure (List VolumeMount × Str)
unless_empty_array volumes s (some rest) = ok (volumes, rest)
unless_empty_array volumes s none = read_volumes (length s + 1) volumes s

-- The volumes behind those that an earlier field of that name gave.
unfoldable pub parse_volumes : List VolumeMount → Str → Result Failure (List VolumeMount × Str)
parse_volumes volumes s = do
  inner ← expect_byte b'[' s
  unless_empty_array volumes (skip_ws inner) (closes b']' (skip_ws inner))

-- The local variables of `VmConfig::from_json`.
pub record ConfigFields : Type 0 where
  pub image : Option Str
  pub cpus : Option ℕ
  pub mem_mb : Option ℕ
  pub net : Option Bool
  pub nonce : Option Bytes
  pub passt_pid : Option ℕ
  pub max_lifetime : Option ℕ
  pub volumes : List VolumeMount

abbrev pub no_config : ConfigFields
no_config = record {
  image = none;
  cpus = none;
  mem_mb = none;
  net = none;
  nonce = none;
  passt_pid = none;
  max_lifetime = none;
  volumes = [];
}

-- `as u32`.
abbrev pub as_u32 : ℕ → ℕ
as_u32 n = n % 2 ^ 32

unfoldable pub nonce_value : Str → Result Failure (Bytes × Str)
nonce_value s = do
  (hex, rest) ← parse_string s
  parsed ← parse_nonce_hex hex
  nonce ← ok_or parsed (error invalid_data "invalid nonce hex")
  ok (nonce, rest)

-- The `match` on the key.
unfoldable pub config_field : ConfigFields → Str → Str → Result Failure (ConfigFields × Str)
config_field f key s =
    if beq key (codes "image")
    then kept (λ v. record f { image = some v }) (parse_string s)
    else if beq key (codes "cpus")
    then kept (λ v. record f { cpus = some (as_u32 v) }) (parse_u64 s)
    else if beq key (codes "mem_mb")
    then kept (λ v. record f { mem_mb = some (as_u32 v) }) (parse_u64 s)
    else if beq key (codes "net")
    then kept (λ v. record f { net = some v }) (parse_bool s)
    else if beq key (codes "nonce")
    then kept (λ v. record f { nonce = some v }) (nonce_value s)
    else if beq key (codes "passt_pid")
    then kept (λ v. record f { passt_pid = some (as_u32 v) }) (parse_u64 s)
    else if beq key (codes "max_lifetime")
    then kept (λ v. record f { max_lifetime = some v }) (parse_u64 s)
    else if beq key (codes "volumes")
    then kept (λ v. record f { volumes = v }) (parse_volumes f.volumes s)
    else dropped f (skip_value s)

unfoldable pub config_of : ConfigFields → Result Failure VmConfig
config_of f = do
  image ← ok_or f.image (error invalid_data "missing 'image'")
  cpus ← ok_or f.cpus (error invalid_data "missing 'cpus'")
  mem_mb ← ok_or f.mem_mb (error invalid_data "missing 'mem_mb'")
  nonce ← ok_or f.nonce (error invalid_data "missing 'nonce'")
  ok (record {
    image = image;
    cpus = cpus;
    mem_mb = mem_mb;
    net = unwrap_or f.net false;
    volumes = f.volumes;
    nonce = nonce;
    passt_pid = f.passt_pid;
    max_lifetime = f.max_lifetime;
  })

-- `VmConfig::from_json`. What follows the object is not looked at.
unfoldable pub config_from_json : Str → Result Failure VmConfig
config_from_json json = do (f, rest) ← read_object config_field no_config json; config_of f
