-- ===== src/Vm/Config/Volumes.antt =====
-- The volumes in the JSON of a VM configuration, read where they are written: src/vm/state.rs.
use arapuca.Prelude.{
  ℕ, zero, suc, ◌+◌, ◌≤◌, ◌<◌, ◌≡◌, refl, ap, ◌∙◌, List, [], ◌∷◌, ◌++◌, append_assoc, none, some,
  Result, ok, ◌>>=◌, Str, codes, length, arith, length-append,
}
use arapuca.Protocol.Json.{
  Failure, skip_ws, expect_byte, json_encode_string, encode_chars, encode_char,
}
use arapuca.Protocol.Json.Strings.{parse_string-json_encode_string, skip_ws-json_encode_string}
use arapuca.Protocol.Json.Values.{closes, next_of}
use arapuca.Protocol.Request.Rounds.{field}
use arapuca.Vm.Config.{
  VolumeMount, VolumeFields, volume_json, more_volumes, volumes_json, bool_json, kept, volume_field,
  volume_of, parse_volume_mount, after_volume, read_volumes, unless_empty_array, parse_volumes,
}
use arapuca.Vm.Config.Values.{parse_bool-bool_json, skip_ws-bool_json}
use arapuca.Vm.Fields.Rounds.{object_first, object_next, object_last, read_object-rounds}

abbrev no_volume : VolumeFields
no_volume = record { host = none; guest = none; read_only = none }

read_host :
    (f : VolumeFields) (v rest : Str)
    → volume_field f (codes "host") (json_encode_string v ++ rest)
      ≡ ok (record f { host = some v }, rest)
unfolding volume_field kept
read_host f v rest = rw (parse_string-json_encode_string v rest) refl

read_guest :
    (f : VolumeFields) (v rest : Str)
    → volume_field f (codes "guest") (json_encode_string v ++ rest)
      ≡ ok (record f { guest = some v }, rest)
unfolding volume_field kept
read_guest f v rest = rw (parse_string-json_encode_string v rest) refl

read_read_only :
    (f : VolumeFields) (b : arapuca.Prelude.Bool) (rest : Str)
    → volume_field f (codes "read_only") (bool_json b ++ rest)
      ≡ ok (record f { read_only = some b }, rest)
unfolding volume_field kept
read_read_only f b rest = rw (parse_bool-bool_json b rest) refl

abbrev volume_body : Str → Str → Str → Str → Str
volume_body h g r rest =
    field (codes "host")
      (h ++ b',' ∷ field (codes "guest") (g ++ b',' ∷ field (codes "read_only") (r ++ b'}' ∷ rest)))

volume_text :
    (h g r rest : Str)
    → (codes "{\"host\":"
          ++ (h ++ (codes ",\"guest\":" ++ (g ++ (codes ",\"read_only\":" ++ (r ++ codes "}"))))))
        ++ rest
      ≡ b'{' ∷ volume_body h g r rest
unfolding json_encode_string encode_chars encode_char
volume_text h g r rest =
    rw
      (
        append_assoc h (codes ",\"guest\":" ++ (g ++ (codes ",\"read_only\":" ++ (r ++ codes "}"))))
            rest,
        append_assoc g (codes ",\"read_only\":" ++ (r ++ codes "}")) rest,
        append_assoc r (codes "}") rest,
      )
      refl

volume_json-body :
    (v : VolumeMount) (rest : Str)
    → volume_json v ++ rest
      ≡ b'{'
        ∷ volume_body
            (json_encode_string v.host)
            (json_encode_string v.guest)
            (bool_json v.read_only)
            rest
unfolding volume_json
volume_json-body v rest =
    volume_text (json_encode_string v.host) (json_encode_string v.guest) (bool_json v.read_only)
      rest

volume_body-length : (h g r rest : Str) → 4 ≤ length (volume_body h g r rest)
unfolding json_encode_string encode_chars encode_char
volume_body-length h g r rest = omega arith

pub parse_volume_mount-volume_json :
    (v : VolumeMount) (rest : Str) → parse_volume_mount (volume_json v ++ rest) ≡ ok (v, rest)
unfolding parse_volume_mount volume_of
parse_volume_mount-volume_json v rest =
    let h = json_encode_string v.host in
    let g = json_encode_string v.guest in
    let r = bool_json v.read_only in
    ap parse_volume_mount (volume_json-body v rest)
    ∙ rw
        (read_object-rounds volume_field 4
          (record { host = some v.host; guest = some v.guest; read_only = some v.read_only }, rest)
          no_volume (volume_body h g r rest) (omega (arith, volume_body-length h g r rest))
          (object_first volume_field 3 no_volume _ (codes "host") _ _
              (skip_ws-json_encode_string v.host _) (read_host no_volume v.host _)
            ∙ object_next volume_field 2 _ _ (codes "guest") _ _
                (skip_ws-json_encode_string v.guest _) (read_guest _ v.guest _)
            ∙ object_next volume_field 1 _ _ (codes "read_only") _ _
                (skip_ws-bool_json v.read_only _) (read_read_only _ v.read_only _)
            ∙ object_last volume_field 0 _ rest))
        refl

-- The loop, at a volume.
read_volumes-step :
    (k : ℕ) (volumes : List VolumeMount) (v : VolumeMount) (rest : Str)
    → read_volumes (suc k) volumes (volume_json v ++ rest)
      ≡ after_volume (λ vs r. read_volumes k vs r) (volumes ++ v ∷ []) (next_of b']' (skip_ws rest))
unfolding read_volumes
read_volumes-step k volumes v rest = rw (parse_volume_mount-volume_json v rest) refl

after_last_volume :
    (run : List VolumeMount → Str → Result Failure (List VolumeMount × Str))
    (volumes : List VolumeMount) (rest : Str)
    → after_volume run volumes (next_of b']' (skip_ws (more_volumes [] ++ b']' ∷ rest)))
      ≡ ok (volumes, rest)
unfolding after_volume next_of skip_ws more_volumes
after_last_volume run volumes rest = refl

after_earlier_volume :
    (run : List VolumeMount → Str → Result Failure (List VolumeMount × Str))
    (volumes : List VolumeMount) (w : VolumeMount) (more : List VolumeMount) (rest : Str)
    → after_volume run volumes (next_of b']' (skip_ws (more_volumes (w ∷ more) ++ b']' ∷ rest)))
      ≡ run volumes (volume_json w ++ (more_volumes more ++ b']' ∷ rest))
unfolding after_volume next_of skip_ws more_volumes
after_earlier_volume run volumes w more rest =
    ap (run volumes) (append_assoc (volume_json w) (more_volumes more) (b']' ∷ rest))

read_volumes-json :
    (more : List VolumeMount) (k : ℕ) (volumes : List VolumeMount) (v : VolumeMount) (rest : Str)
    → length more < k
    → read_volumes k volumes (volume_json v ++ (more_volumes more ++ b']' ∷ rest))
      ≡ ok (volumes ++ v ∷ more, rest)
read_volumes-json more zero volumes v rest h = absurd (omega arith)
read_volumes-json [] (suc k) volumes v rest h =
    read_volumes-step k volumes v _
    ∙ after_last_volume (λ vs r. read_volumes k vs r) (volumes ++ v ∷ []) rest
read_volumes-json (w ∷ more) (suc k) volumes v rest h =
    read_volumes-step k volumes v _
    ∙ after_earlier_volume (λ vs r. read_volumes k vs r) (volumes ++ v ∷ []) w more rest
    ∙ read_volumes-json more k (volumes ++ v ∷ []) w rest (omega arith)
    ∙ ap (λ vs. ok (vs, rest)) (append_assoc volumes (v ∷ []) (w ∷ more))

more_volumes-length : (more : List VolumeMount) → length more ≤ length (more_volumes more)
unfolding more_volumes
more_volumes-length [] = omega arith
more_volumes-length (v ∷ more) =
    omega (arith, more_volumes-length more, length-append (volume_json v) (more_volumes more))

enough_rounds :
    (v : VolumeMount) (more : List VolumeMount) (rest : Str)
    → length more < length (volume_json v ++ (more_volumes more ++ rest)) + 1
enough_rounds v more rest = omega (
  arith,
  more_volumes-length more,
  length-append (more_volumes more) rest,
  length-append (volume_json v) (more_volumes more ++ rest),
)

opens :
    (v : VolumeMount) (text : Str)
    → unless_empty_array []
        (skip_ws (volume_json v ++ text))
        (closes b']' (skip_ws (volume_json v ++ text)))
      ≡ read_volumes (length (volume_json v ++ text) + 1) [] (volume_json v ++ text)
unfolding volume_json skip_ws closes unless_empty_array
opens v text = refl

split_volumes :
    (v : VolumeMount) (more : List VolumeMount) (rest : Str)
    → volumes_json (v ∷ more) ++ rest ≡ volume_json v ++ (more_volumes more ++ rest)
unfolding volumes_json
split_volumes v more rest = append_assoc (volume_json v) (more_volumes more) rest

one_more :
    (v : VolumeMount) (more : List VolumeMount) (rest : Str)
    → parse_volumes [] (b'[' ∷ (volume_json v ++ (more_volumes more ++ b']' ∷ rest)))
      ≡ ok (v ∷ more, rest)
unfolding parse_volumes expect_byte
one_more v more rest =
    opens v (more_volumes more ++ b']' ∷ rest)
    ∙ (read_volumes-json more _ [] v rest (enough_rounds v more (b']' ∷ rest)))

-- An array of volumes is read back from what the writer prints.
pub parse_volumes-volumes_json :
    (volumes : List VolumeMount) (rest : Str)
    → parse_volumes [] (b'[' ∷ (volumes_json volumes ++ b']' ∷ rest)) ≡ ok (volumes, rest)
unfolding parse_volumes unless_empty_array expect_byte volumes_json skip_ws closes
parse_volumes-volumes_json [] rest = refl
parse_volumes-volumes_json (v ∷ more) rest =
    ap (λ s. parse_volumes [] (b'[' ∷ s)) (split_volumes v more (b']' ∷ rest))
    ∙ one_more v more rest
