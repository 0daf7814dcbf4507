-- ===== src/Vm/Config/Keys.antt =====
-- The fields in the JSON of a VM configuration, read where they are written: src/vm/state.rs.
use arapuca.Prelude.{
  ℕ, ◌^◌, ◌%◌, ◌<◌, ◌≡◌, refl, List, [], ◌∷◌, ◌++◌, Bool, false, some, ok, Str, Bytes, codes,
  length, arith, All, is_ascii_digit,
}
use arapuca.Prelude.Decimal.{to_string}
use arapuca.Protocol.Frame.RoundTrip.{IsByte}
use arapuca.Protocol.Json.{skip_ws, is_ascii_whitespace, json_encode_string}
use arapuca.Protocol.Json.Strings.{parse_string-json_encode_string}
use arapuca.Protocol.Json.Values.{parse_u64}
use arapuca.Protocol.Nonce.{nonce_size}
use arapuca.Vm.Config.{
  VolumeMount, ConfigFields, as_u32, kept, config_field, bool_json, volumes_json,
}
use arapuca.Vm.Config.Values.{parse_u64-to_string, parse_bool-bool_json, nonce_value-nonce_hex}
use arapuca.Vm.Config.Volumes.{parse_volumes-volumes_json}
use arapuca.Vm.Nonces.{nonce_hex}

-- A number of 32 bits in front of a character that is no digit.
read_u32 :
    (n c : ℕ) (rest : Str) (put : ℕ → ConfigFields)
    → n < 2 ^ 32
    → is_ascii_digit c ≡ false
    → kept (λ v. put (as_u32 v)) (parse_u64 (to_string n ++ c ∷ rest)) ≡ ok (put n, c ∷ rest)
unfolding kept
read_u32 n c rest put h k =
    let same : n % 2 ^ 32 ≡ n = omega arith in
    rw (parse_u64-to_string n c rest (omega arith) k, same) refl

module _ (f : ConfigFields) where
  pub read_image :
      (v rest : Str)
      → config_field f (codes "image") (json_encode_string v ++ rest)
        ≡ ok (record f { image = some v }, rest)
  unfolding config_field kept
  read_image v rest = rw (parse_string-json_encode_string v rest) refl

  pub read_cpus :
      (n : ℕ) (rest : Str)
      → n < 2 ^ 32
      → config_field f (codes "cpus") (to_string n ++ b',' ∷ rest)
        ≡ ok (record f { cpus = some n }, b',' ∷ rest)
  unfolding config_field
  read_cpus n rest h = read_u32 n b',' rest (λ v. record f { cpus = some v }) h refl

  pub read_mem_mb :
      (n : ℕ) (rest : Str)
      → n < 2 ^ 32
      → config_field f (codes "mem_mb") (to_string n ++ b',' ∷ rest)
        ≡ ok (record f { mem_mb = some n }, b',' ∷ rest)
  unfolding config_field
  read_mem_mb n rest h = read_u32 n b',' rest (λ v. record f { mem_mb = some v }) h refl

  pub read_net :
      (b : Bool) (rest : Str)
      → config_field f (codes "net") (bool_json b ++ rest) ≡ ok (record f { net = some b }, rest)
  unfolding config_field kept
  read_net b rest = rw (parse_bool-bool_json b rest) refl

  pub read_volumes_field :
      (vs : List VolumeMount) (rest : Str)
      → f.volumes ≡ []
      → config_field f (codes "volumes") (b'[' ∷ (volumes_json vs ++ b']' ∷ rest))
        ≡ ok (record f { volumes = vs }, rest)
  unfolding config_field kept
  read_volumes_field vs rest e = rw (e, parse_volumes-volumes_json vs rest) refl

  pub read_nonce_field :
      (nonce : Bytes) (rest : Str)
      → All IsByte nonce
      → length nonce ≡ nonce_size
      → config_field f (codes "nonce") (b'"' ∷ (nonce_hex nonce ++ b'"' ∷ rest))
        ≡ ok (record f { nonce = some nonce }, rest)
  unfolding config_field kept
  read_nonce_field nonce rest h l = rw (nonce_value-nonce_hex nonce rest h l) refl

  pub read_passt_pid :
      (n c : ℕ) (rest : Str)
      → n < 2 ^ 32
      → is_ascii_digit c ≡ false
      → config_field f (codes "passt_pid") (to_string n ++ c ∷ rest)
        ≡ ok (record f { passt_pid = some n }, c ∷ rest)
  unfolding config_field
  read_passt_pid n c rest h k = read_u32 n c rest (λ v. record f { passt_pid = some v }) h k

  pub read_max_lifetime :
      (n : ℕ) (rest : Str)
      → n < 2 ^ 64
      → config_field f (codes "max_lifetime") (to_string n ++ b'}' ∷ rest)
        ≡ ok (record f { max_lifetime = some n }, b'}' ∷ rest)
  unfolding config_field kept
  read_max_lifetime n rest h = rw (parse_u64-to_string n b'}' rest h refl) refl

-- A character that is no white space.
pub solid : (d : ℕ) (rest : Str) → is_ascii_whitespace d ≡ false → skip_ws (d ∷ rest) ≡ d ∷ rest
unfolding skip_ws
solid d rest h = rw h refl
