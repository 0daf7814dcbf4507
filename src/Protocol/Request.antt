-- ===== src/Protocol/Request.antt =====
-- `ExecRequest` of src/vm/protocol.rs and its JSON. A `String` is the list of its characters.
pub mod Enough
pub mod Rounds
pub mod Values
pub mod RoundTrip
use Prim.Native.String.{String}
use arapuca.Prelude.{
  ℕ, zero, suc, ◌+◌, List, [], ◌∷◌, ◌++◌, Bool, true, false, ◌&&◌, Option, none, some, Result, ok,
  err, ◌>>=◌, ◌>>◌, ok_or, ltb, if◌then◌else◌, Str, codes, length, beq,
}
use arapuca.Prelude.Decimal.{to_string}
use arapuca.Protocol.Io.{invalid_data}
use arapuca.Protocol.Json.{
  Failure, error, out_of_rounds, skip_ws, expect_byte, parse_string, parse_string_array,
  json_encode_string, json_encode_string_array,
}
use arapuca.Protocol.Json.Values.{parse_bool, parse_u16, skip_value, closes}

pub record ExecRequest : Type 0 where
  pub cmd : Str
  pub args : List Str
  pub env : List Str
  pub user : Str
  pub tty : Bool
  pub rows : ℕ
  pub cols : ℕ

-- The fields of a terminal.
unfoldable pub tty_json : Bool → ℕ → ℕ → Str
tty_json false rows cols = []
tty_json true rows cols =
    codes ",\"tty\":true"
    ++ (if ltb 0 rows && ltb 0 cols
        then codes ",\"rows\":" ++ (to_string rows ++ (codes ",\"cols\":" ++ to_string cols))
        else [])

unfoldable pub to_json : ExecRequest → Str
to_json req =
    codes "{\"cmd\":"
    ++ (json_encode_string req.cmd
        ++ (codes ",\"args\":"
            ++ (json_encode_string_array req.args
                ++ (codes ",\"env\":"
                    ++ (json_encode_string_array req.env
                        ++ (codes ",\"user\":"
                            ++ (json_encode_string req.user
                                ++ (tty_json req.tty req.rows req.cols ++ codes "}"))))))))

-- The local variables of `from_json`.
pub record Fields : Type 0 where
  pub cmd : Option Str
  pub args : Option (List Str)
  pub env : Option (List Str)
  pub user : Option Str
  pub tty : Option Bool
  pub rows : Option ℕ
  pub cols : Option ℕ

abbrev pub no_fields : Fields
no_fields = record {
  cmd = none;
  args = none;
  env = none;
  user = none;
  tty = none;
  rows = none;
  cols = none;
}

-- A field that may be given once.
unfoldable pub set_once {ℓ} :
    {A : Type ℓ}
    → Option A
    → Result Failure (A × Str)
    → (A → Fields)
    → Result Failure (Fields × Str)
set_once (some given) parsed put = err (error invalid_data "duplicate field in EXEC")
set_once none (err e) put = err e
set_once none (ok (a, rest)) put = ok (put a, rest)

-- A field that is not known.
abbrev pub passed_over : Fields → Result Failure Str → Result Failure (Fields × Str)
passed_over f (err e) = err e
passed_over f (ok rest) = ok (f, rest)

-- The `match` on the key.
unfoldable pub read_field : Fields → Str → Str → Result Failure (Fields × Str)
read_field f key s =
    if beq key (codes "cmd")
    then set_once f.cmd (parse_string s) (λ v. record f { cmd = some v })
    else if beq key (codes "args")
    then set_once f.args (parse_string_array s) (λ v. record f { args = some v })
    else if beq key (codes "env")
    then set_once f.env (parse_string_array s) (λ v. record f { env = some v })
    else if beq key (codes "user")
    then set_once f.user (parse_string s) (λ v. record f { user = some v })
    else if beq key (codes "tty")
    then set_once f.tty (parse_bool s) (λ v. record f { tty = some v })
    else if beq key (codes "rows")
    then set_once f.rows (parse_u16 s) (λ v. record f { rows = some v })
    else if beq key (codes "cols")
    then set_once f.cols (parse_u16 s) (λ v. record f { cols = some v })
    else passed_over f (skip_value s)

-- The comma in front of every field but the first.
unfoldable pub separator : Bool → Str → Result Failure Str
separator true s = ok s
separator false s = expect_byte b',' s

-- A field from its comma on.
unfoldable pub one_field : Bool → Fields → Str → Result Failure (Fields × Str)
one_field first f s = do
  s' ← separator first s
  (key, rest) ← parse_string (skip_ws s')
  value ← expect_byte b':' (skip_ws rest)
  read_field f key (skip_ws value)

-- The loop of `from_json`, in rounds.
unfoldable pub field_loop :
    (Bool → Fields → Str → Result Failure Fields)
    → Bool
    → Fields
    → Str
    → Option Str
    → Result Failure Fields
field_loop run first f s (some rest) = ok f
field_loop run first f s none = do (f', rest) ← one_field first f s; run false f' rest

unfoldable pub read_fields : ℕ → Bool → Fields → Str → Result Failure Fields
read_fields zero first f s = err out_of_rounds
read_fields (suc k) first f s =
    field_loop (λ b g r. read_fields k b g r) first f (skip_ws s) (closes b'}' (skip_ws s))

abbrev pub unwrap_or {ℓ} : {A : Type ℓ} → Option A → A → A
unwrap_or none default = default
unwrap_or (some a) default = a

unfoldable pub request_of : Fields → Result Failure ExecRequest
request_of f = do
  cmd ← ok_or f.cmd (error invalid_data "missing 'cmd' in EXEC")
  ok (record {
    cmd = cmd;
    args = unwrap_or f.args [];
    env = unwrap_or f.env [];
    user = unwrap_or f.user (codes "root");
    tty = unwrap_or f.tty false;
    rows = unwrap_or f.rows 0;
    cols = unwrap_or f.cols 0;
  })

unfoldable pub from_json : Str → Result Failure ExecRequest
from_json json = do
  s ← expect_byte b'{' (skip_ws json)
  f ← read_fields (length s + 1) true no_fields s
  request_of f
