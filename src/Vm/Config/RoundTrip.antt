-- ===== src/Vm/Config/RoundTrip.antt =====
-- The JSON of a VM configuration, read back: src/vm/state.rs.
use arapuca.Prelude.{
  ℕ, suc, ◌^◌, ◌≤◌, ◌<◌, ◌≡◌, refl, ap, ◌∙◌, [], ◌∷◌, ◌++◌, append_assoc, true, false, Option, none,
  some, ok, Str, codes, length, arith, All, is_ascii_digit,
}
use arapuca.Prelude.Decimal.{to_string}
use arapuca.Protocol.Frame.RoundTrip.{IsByte}
use arapuca.Protocol.Json.{json_encode_string, encode_chars, encode_char}
use arapuca.Protocol.Json.Strings.{skip_ws-json_encode_string}
use arapuca.Protocol.Nonce.{nonce_size}
use arapuca.Protocol.Request.Rounds.{field}
use arapuca.Protocol.Request.Values.{skip_ws-to_string}
use arapuca.Vm.Config.{
  VmConfig, ConfigFields, no_config, config_field, config_of, bool_json, volumes_json, number_json,
  config_to_json, config_from_json,
}
use arapuca.Vm.Config.Values.{skip_ws-bool_json}
use arapuca.Vm.Fields.{object_fields}
use arapuca.Vm.Fields.Rounds.{object_first, object_next, object_last, read_object-rounds}
use arapuca.Vm.Nonces.{nonce_hex}
use arapuca.Vm.Config.Keys.{
  read_image, read_cpus, read_mem_mb, read_net, read_volumes_field, read_nonce_field,
  read_passt_pid, read_max_lifetime, solid,
}

-- A number that is there is below a bound.
abbrev pub IsBelow : ℕ → Option ℕ → Type 0
IsBelow bound none = Unit
IsBelow bound (some n) = n < bound

-- The widths of a configuration's numbers.
unfoldable pub IsConfig : VmConfig → Type 0
IsConfig c =
    (c.cpus < 2 ^ 32)
    × (c.mem_mb < 2 ^ 32)
    × All IsByte c.nonce
    × (length c.nonce ≡ nonce_size)
    × IsBelow (2 ^ 32) c.passt_pid
    × IsBelow (2 ^ 64) c.max_lifetime

abbrev ending : Option ℕ → Option ℕ → Str
ending pid lifetime =
    number_json (codes ",\"passt_pid\":") pid
    ++ (number_json (codes ",\"max_lifetime\":") lifetime ++ codes "}")

-- The end of the object: the numbers that may be missing.
lifetime_end :
    (k : ℕ) (f : ConfigFields) (lifetime : Option ℕ)
    → f.max_lifetime ≡ none
    → IsBelow (2 ^ 64) lifetime
    → object_fields config_field (suc (suc k)) false f (ending none lifetime)
      ≡ ok (record f { max_lifetime = lifetime }, [])
unfolding number_json object_fields json_encode_string encode_chars encode_char
lifetime_end k f none e h =
    object_last config_field (suc k) f [] ∙ ap (λ l. ok (record f { max_lifetime = l }, [])) e
lifetime_end k f (some n) e h =
    ap (object_fields config_field (suc (suc k)) false f)
      (append_assoc (codes ",\"max_lifetime\":") (to_string n) (codes "}"))
    ∙ object_next config_field (suc k) f _ (codes "max_lifetime") _ _ (skip_ws-to_string n _)
        (read_max_lifetime f n [] h)
    ∙ object_last config_field k _ []

-- What is behind a number is no digit.
ending-front :
    (lifetime : Option ℕ)
    → (c : ℕ) × (rest : Str) × (is_ascii_digit c ≡ false) × (ending none lifetime ≡ c ∷ rest)
unfolding number_json
ending-front none = (b'}', [], refl, refl)
ending-front (some n) = (b',', _, refl, refl)

ending-some :
    (n : ℕ) (lifetime : Option ℕ)
    → ending (some n) lifetime
      ≡ b',' ∷ field (codes "passt_pid") (to_string n ++ ending none lifetime)
unfolding number_json json_encode_string encode_chars encode_char
ending-some n lifetime = append_assoc (codes ",\"passt_pid\":") (to_string n) (ending none lifetime)

read_pid :
    (f : ConfigFields) (n : ℕ) (lifetime : Option ℕ)
    → n < 2 ^ 32
    → config_field f (codes "passt_pid") (to_string n ++ ending none lifetime)
      ≡ ok (record f { passt_pid = some n }, ending none lifetime)
read_pid f n lifetime h =
    let (c, rest, digit, e) = ending-front lifetime in rw e (read_passt_pid f n c rest h digit)

pid_end :
    (f : ConfigFields) (pid lifetime : Option ℕ)
    → f.passt_pid ≡ none
    → f.max_lifetime ≡ none
    → IsBelow (2 ^ 32) pid
    → IsBelow (2 ^ 64) lifetime
    → object_fields config_field 3 false f (ending pid lifetime)
      ≡ ok (record f { passt_pid = pid; max_lifetime = lifetime }, [])
pid_end f none lifetime p l hp hl =
    lifetime_end 1 f lifetime l hl
    ∙ ap (λ q. ok (record f { passt_pid = q; max_lifetime = lifetime }, [])) p
pid_end f (some n) lifetime p l hp hl =
    ap (object_fields config_field 3 false f) (ending-some n lifetime)
    ∙ object_next config_field 2 f _ (codes "passt_pid") _ _ (skip_ws-to_string n _)
        (read_pid f n lifetime hp)
    ∙ lifetime_end 0 (record f { passt_pid = some n }) lifetime l hl

abbrev body : VmConfig → Str
body c = field (codes "image") (
    json_encode_string c.image
    ++ b','
      ∷ field (codes "cpus") (
          to_string c.cpus
          ++ b','
            ∷ field (codes "mem_mb") (
                to_string c.mem_mb
                ++ b','
                  ∷ field (codes "net") (
                      bool_json c.net
                      ++ b','
                        ∷ field (codes "volumes") (
                            b'['
                            ∷ (volumes_json c.volumes
                                ++ b']'
                                  ∷ b','
                                  ∷ field (codes "nonce") (
                                      b'"'
                                      ∷ (nonce_hex c.nonce
                                          ++ b'"' ∷ ending c.passt_pid c.max_lifetime))))))))

config_to_json-body : (c : VmConfig) → config_to_json c ≡ b'{' ∷ body c
unfolding config_to_json json_encode_string encode_chars encode_char
config_to_json-body c = refl

-- What the loop finds.
abbrev written : VmConfig → ConfigFields
written c = record {
  image = some c.image;
  cpus = some c.cpus;
  mem_mb = some c.mem_mb;
  net = some c.net;
  nonce = some c.nonce;
  passt_pid = c.passt_pid;
  max_lifetime = c.max_lifetime;
  volumes = c.volumes;
}

object_fields-body :
    (c : VmConfig)
    → IsConfig c
    → object_fields config_field 9 true no_config (body c) ≡ ok (written c, [])
unfolding IsConfig
object_fields-body c (hc, hm, hn, ln, hp, hl) =
    object_first config_field 8 no_config _ (codes "image") _ _
      (skip_ws-json_encode_string c.image _) (read_image no_config c.image _)
    ∙ object_next config_field 7 _ _ (codes "cpus") _ _ (skip_ws-to_string c.cpus _)
        (read_cpus _ c.cpus _ hc)
    ∙ object_next config_field 6 _ _ (codes "mem_mb") _ _ (skip_ws-to_string c.mem_mb _)
        (read_mem_mb _ c.mem_mb _ hm)
    ∙ object_next config_field 5 _ _ (codes "net") _ _ (skip_ws-bool_json c.net _)
        (read_net _ c.net _)
    ∙ object_next config_field 4 _ _ (codes "volumes") _ _ (solid b'[' _ refl)
        (read_volumes_field _ c.volumes _ refl)
    ∙ object_next config_field 3 _ _ (codes "nonce") _ _ (solid b'"' _ refl)
        (read_nonce_field _ c.nonce _ hn ln)
    ∙ pid_end _ c.passt_pid c.max_lifetime refl refl hp hl

body-length : (c : VmConfig) → 9 ≤ length (body c)
unfolding json_encode_string encode_chars encode_char
body-length c = omega arith

-- The configuration of a VM whose numbers fit their widths and whose nonce is 32 bytes is read back
-- from its JSON as it was.
pub config_from_json-config_to_json :
    (c : VmConfig) → IsConfig c → config_from_json (config_to_json c) ≡ ok c
unfolding config_from_json config_of
config_from_json-config_to_json c h =
    ap config_from_json (config_to_json-body c)
    ∙ rw
        (read_object-rounds config_field 9 (written c, []) no_config (body c)
          (omega (arith, body-length c)) (object_fields-body c h))
        refl
