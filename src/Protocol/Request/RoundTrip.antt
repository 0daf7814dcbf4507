-- ===== src/Protocol/Request/RoundTrip.antt =====
-- The JSON of a request, read back: src/vm/protocol.rs.
use arapuca.Prelude.{
  ℕ, zero, suc, ◌+◌, ◌^◌, ◌≤◌, ◌<◌, ◌≡◌, refl, ap, ◌∙◌, inl, inr, [], ◌∷◌, ◌++◌, append_assoc, Bool,
  true, false, ◌&&◌, Option, none, some, Result, ok, ltb, if◌then◌else◌, Str, codes, length, arith,
  eq-cases, >>=-eq-ok, Bool-cases,
}
use arapuca.Prelude.Decimal.{to_string}
use arapuca.Protocol.Json.{
  Failure, skip_ws, expect_byte, json_encode_string, json_encode_string_array, encode_chars,
  encode_char,
}
use arapuca.Protocol.Json.Strings.{skip_ws-json_encode_string}
use arapuca.Protocol.Request.{
  ExecRequest, Fields, no_fields, tty_json, to_json, one_field, field_loop, read_fields, request_of,
  from_json,
}
use arapuca.Protocol.Request.Rounds.{field, round_first, round_next, round_last}
use arapuca.Protocol.Request.Values.{
  read_cmd, read_args, read_env, read_user, read_tty, read_rows, read_cols, skip_ws-array,
  skip_ws-to_string,
}

-- More rounds do not change a result.
field_loop_more :
    (run run' : Bool → Fields → Str → Result Failure Fields) (r : Fields)
    → ((b : Bool) (f : Fields) (s : Str) → run b f s ≡ ok r → run' b f s ≡ ok r)
    → (b : Bool) (f : Fields) (s : Str) (c : Option Str) → field_loop run b f s c ≡ ok r
    → field_loop run' b f s c ≡ ok r
unfolding field_loop
field_loop_more run run' r more b f s (some rest) h = h
field_loop_more run run' r more b f s none h =
    let ((f', rest), e, k) = >>=-eq-ok (one_field b f s) _ h in rw e (more false f' rest k)

read_fields_more :
    (k : ℕ) (r : Fields) (b : Bool) (f : Fields) (s : Str)
    → read_fields k b f s ≡ ok r
    → read_fields (suc k) b f s ≡ ok r
unfolding read_fields
read_fields_more zero r b f s h = cc
read_fields_more (suc k) r b f s h =
    field_loop_more (λ b g t. read_fields k b g t) (λ b g t. read_fields (suc k) b g t) r
      (read_fields_more k r) b f (skip_ws s) _ h

read_fields_le :
    (n k : ℕ) (r : Fields) (b : Bool) (f : Fields) (s : Str)
    → k ≤ n
    → read_fields k b f s ≡ ok r
    → read_fields n b f s ≡ ok r
read_fields_le zero k r b f s q h = let e : k ≡ 0 = omega arith in rw e at h
read_fields_le (suc n) k r b f s q h = elim (eq-cases k (suc n)) [
  | inl e ↦ rw e at h
  | inr e ↦ read_fields_more n r b f s (read_fields_le n k r b f s (omega arith) h)
]

-- What the rounds over a terminal's fields find.
abbrev terminal : Bool → ℕ → ℕ → Fields → Fields
terminal false rows cols f = f
terminal true rows cols f =
    if ltb 0 rows && ltb 0 cols
    then record f { tty = some true; rows = some rows; cols = some cols }
    else record f { tty = some true }

abbrev HasNoTerminal : Fields → Type 0
HasNoTerminal f = (f.tty ≡ none) × (f.rows ≡ none) × (f.cols ≡ none)

-- The terminal's fields up to the end.
sized_end :
    (f : Fields) (rows cols : ℕ)
    → f.rows ≡ none
    → f.cols ≡ none
    → rows < 2 ^ 16
    → cols < 2 ^ 16
    → read_fields 3 false f (
        b','
        ∷ field
            (codes "rows")
            (to_string rows ++ b',' ∷ field (codes "cols") (to_string cols ++ codes "}")))
      ≡ ok (record f { rows = some rows; cols = some cols })
sized_end f rows cols no_rows no_cols h k =
    round_next 2 f _ (codes "rows") _ _ (skip_ws-to_string rows _)
      (read_rows f rows (field (codes "cols") (to_string cols ++ codes "}")) no_rows h)
    ∙ round_next 1 _ _ (codes "cols") _ _ (skip_ws-to_string cols _)
        (read_cols (record f { rows = some rows }) cols [] no_cols k)
    ∙ round_last 0 _

-- What `tty_json` writes, up to the end.
tty_json-true :
    (rows cols : ℕ)
    → tty_json true rows cols ++ codes "}"
      ≡ b','
        ∷ field (codes "tty") (
            codes "true"
            ++ (if ltb 0 rows && ltb 0 cols
                then b','
                  ∷ field
                      (codes "rows")
                      (to_string rows ++ b',' ∷ field (codes "cols") (to_string cols ++ codes "}"))
                else codes "}"))
unfolding tty_json json_encode_string encode_chars encode_char
tty_json-true rows cols = elim (Bool-cases (ltb 0 rows && ltb 0 cols)) [
  | inl e ↦
      rw (e, append_assoc (to_string rows) (codes ",\"cols\":" ++ to_string cols) (codes "}")) refl
  | inr e ↦ rw e refl
]

terminal_end :
    (f : Fields) (tty : Bool) (rows cols : ℕ)
    → HasNoTerminal f
    → rows < 2 ^ 16
    → cols < 2 ^ 16
    → read_fields 4 false f (tty_json tty rows cols ++ codes "}") ≡ ok (terminal tty rows cols f)
unfolding tty_json skip_ws
terminal_end f false rows cols none_yet h k = round_last 3 f
terminal_end f true rows cols (no_tty, no_rows, no_cols) h k =
    ap (read_fields 4 false f) (tty_json-true rows cols)
    ∙ round_next 3 f (record f { tty = some true }) (codes "tty") _ _ refl (read_tty f _ no_tty)
    ∙ size_end (ltb 0 rows && ltb 0 cols)
  where
    size_end :
        (sized : Bool)
        → read_fields 3 false
            (record f { tty = some true })
            (if sized
              then b','
                ∷ field
                    (codes "rows")
                    (to_string rows ++ b',' ∷ field (codes "cols") (to_string cols ++ codes "}"))
              else codes "}")
          ≡ ok (
              if sized
              then record f { tty = some true; rows = some rows; cols = some cols }
              else record f { tty = some true })
    size_end true = sized_end (record f { tty = some true }) rows cols no_rows no_cols h k
    size_end false = round_last 2 (record f { tty = some true })

-- The request as it is read back: the size of a terminal is written only if there is a terminal and
-- neither part of the size is 0.
abbrev pub shown : ExecRequest → ExecRequest
shown req =
    if req.tty && (ltb 0 req.rows && ltb 0 req.cols) then req else record req { rows = 0; cols = 0 }

-- The fields in front of the terminal's.
abbrev written : ExecRequest → Fields
written req = record {
  cmd = some req.cmd;
  args = some req.args;
  env = some req.env;
  user = some req.user;
  tty = none;
  rows = none;
  cols = none;
}

request_of-terminal :
    (req : ExecRequest)
    → request_of (terminal req.tty req.rows req.cols (written req)) ≡ ok (shown req)
unfolding request_of
request_of-terminal req = by_tty req.tty req.rows req.cols
  where
    by_tty :
        (tty : Bool) (rows cols : ℕ)
        → request_of (terminal tty rows cols (written req))
          ≡ ok (shown (record req { tty = tty; rows = rows; cols = cols }))
    by_tty false rows cols = refl
    by_tty true rows cols = elim (Bool-cases (ltb 0 rows && ltb 0 cols)) [
      | inl e ↦ rw e refl
      | inr e ↦ rw e refl
    ]

abbrev body : ExecRequest → Str
body req = field (codes "cmd") (
    json_encode_string req.cmd
    ++ b','
      ∷ field (codes "args") (
          json_encode_string_array req.args
          ++ b','
            ∷ field (codes "env") (
                json_encode_string_array req.env
                ++ b','
                  ∷ field (codes "user") (
                      json_encode_string req.user
                      ++ (tty_json req.tty req.rows req.cols ++ codes "}")))))

to_json-body : (req : ExecRequest) → to_json req ≡ b'{' ∷ body req
unfolding to_json json_encode_string encode_chars encode_char
to_json-body req = refl

-- The loop over what `to_json` writes behind the brace.
read_fields-body :
    (req : ExecRequest)
    → length req.args ≤ 4096
    → length req.env ≤ 4096
    → req.rows < 2 ^ 16
    → req.cols < 2 ^ 16
    → read_fields 8 true no_fields (body req)
      ≡ ok (terminal req.tty req.rows req.cols (written req))
read_fields-body req a e r c =
    round_first 7 no_fields _ (codes "cmd") _ _ (skip_ws-json_encode_string req.cmd _)
      (read_cmd no_fields req.cmd _ refl)
    ∙ round_next 6 _ _ (codes "args") _ _ (skip_ws-array req.args _) (read_args _ req.args _ refl a)
    ∙ round_next 5 _ _ (codes "env") _ _ (skip_ws-array req.env _) (read_env _ req.env _ refl e)
    ∙ round_next 4 _ _ (codes "user") _ _ (skip_ws-json_encode_string req.user _)
        (read_user _ req.user _ refl)
    ∙ terminal_end (written req) req.tty req.rows req.cols (refl, refl, refl) r c

body-length : (req : ExecRequest) → 7 ≤ length (body req)
unfolding json_encode_string encode_chars encode_char
body-length req = omega arith

-- A request is read back from its JSON as it was, if each list has at most 4096 elements and the size
-- of the terminal fits into 16 bits, but for that size, which is read as 0 if there is no terminal or
-- a part of it is 0.
pub from_json-to_json :
    (req : ExecRequest)
    → length req.args ≤ 4096
    → length req.env ≤ 4096
    → req.rows < 2 ^ 16
    → req.cols < 2 ^ 16
    → from_json (to_json req) ≡ ok (shown req)
unfolding from_json skip_ws expect_byte
from_json-to_json req a e r c =
    ap from_json (to_json-body req)
    ∙ rw
        (read_fields_le (length (body req) + 1) 8 _ true no_fields (body req)
          (omega (arith, body-length req)) (read_fields-body req a e r c))
        (request_of-terminal req)
