-- ===== src/Vm/Tests.antt =====
-- Runs of src/vm/state.rs, and instances of its theorems.
use arapuca.Prelude.{
  ℕ, zero, suc, ◌≡◌, refl, [], ◌∷◌, true, false, some, ok, err, Bytes, codes, arith, All,
}
use arapuca.Protocol.Frame.RoundTrip.{IsByte}
use arapuca.Vm.Config.RoundTrip.{IsConfig, config_from_json-config_to_json}
use arapuca.Vm.Nonces.RoundTrip.{parse_nonce_hex-nonce_hex}
use arapuca.Prelude.Decimal.{print_digits, to_string, read_digits, fitting}
use arapuca.Prelude.Utf8.{char_len}
use arapuca.Prelude.Utf8.Coding.{as_bytes, char_bytes}
use arapuca.Protocol.Json.{
  panic, hex_digit, skip_ws, expect_byte, json_encode_string, encode_chars, encode_char,
  parse_string, parse_chars, round, simple_escape, after_escape, hex_value, radix_digits,
  from_str_radix16,
}
use arapuca.Protocol.Json.Values.{
  span_digits, number_in, parse_u64, bool_of, parse_bool, next_of, closes,
}
use arapuca.Protocol.Request.{separator}
use arapuca.Vm.Fields.{object_field, object_loop, object_fields, read_object}
use arapuca.Vm.Nonces.{nonce_hex, parse_nonce_hex, nonce_slices, slice_value, inside_char, put_byte}
use arapuca.Vm.Config.{
  VmConfig, bool_json, volume_json, more_volumes, volumes_json, number_json, config_to_json, kept,
  volume_field, volume_of, parse_volume_mount, after_volume, read_volumes, unless_empty_array,
  parse_volumes, nonce_value, config_field, config_of, config_from_json,
}

-- A number of equal elements.
abbrev repeated : ℕ → ℕ → Bytes
repeated zero b = []
repeated (suc n) b = b ∷ repeated n b

abbrev nonce_of_test : Bytes
nonce_of_test = 0x1f ∷ repeated 31 0xc4

nonce_of_test-IsByte : All IsByte nonce_of_test
nonce_of_test-IsByte = ground arith

nonce_read_back : parse_nonce_hex (nonce_hex nonce_of_test) ≡ ok (some nonce_of_test)
nonce_read_back = parse_nonce_hex-nonce_hex nonce_of_test nonce_of_test-IsByte refl

-- 64 bytes, with a character of two bytes that begins at an odd place.
nonce_panic : parse_nonce_hex (b'0' ∷ 0xe9 ∷ repeated 61 b'0') ≡ err panic
unfolding parse_nonce_hex char_len nonce_slices as_bytes char_bytes slice_value inside_char
nonce_panic = refl

-- A sign in the digits is accepted.
nonce_sign : parse_nonce_hex (b'+' ∷ b'1' ∷ repeated 62 b'0') ≡ ok (some (1 ∷ repeated 31 0))
unfolding parse_nonce_hex char_len nonce_slices as_bytes char_bytes slice_value inside_char
    from_str_radix16 radix_digits hex_value put_byte
nonce_sign = refl

abbrev config_of_test : VmConfig
config_of_test = record {
  image = codes "fedora";
  cpus = 2;
  mem_mb = 4096;
  net = true;
  volumes =
      record { host = codes "/a \"b\""; guest = codes "/mnt"; read_only = true }
      ∷ record { host = codes "/c"; guest = codes "/d"; read_only = false }
      ∷ [];
  nonce = nonce_of_test;
  passt_pid = some 77;
  max_lifetime = some 3600;
}

config_read_back : config_from_json (config_to_json config_of_test) ≡ ok config_of_test
unfolding skip_ws expect_byte json_encode_string encode_chars encode_char parse_string parse_chars
    round simple_escape after_escape hex_value radix_digits from_str_radix16 span_digits number_in
    parse_u64 bool_of parse_bool next_of closes print_digits to_string read_digits fitting bool_json
    volume_json more_volumes volumes_json number_json config_to_json kept volume_field volume_of
    parse_volume_mount after_volume read_volumes unless_empty_array parse_volumes nonce_value
    config_field config_of config_from_json object_field object_loop object_fields read_object
    nonce_hex parse_nonce_hex nonce_slices slice_value inside_char put_byte hex_digit char_len
    as_bytes char_bytes separator
config_read_back = refl

config_of_test-IsConfig : IsConfig config_of_test
unfolding IsConfig
config_of_test-IsConfig =
    (omega arith, omega arith, nonce_of_test-IsByte, refl, omega arith, omega arith)

config_from_json-config_to_json_example :
    config_from_json (config_to_json config_of_test) ≡ ok config_of_test
config_from_json-config_to_json_example =
    config_from_json-config_to_json config_of_test config_of_test-IsConfig
