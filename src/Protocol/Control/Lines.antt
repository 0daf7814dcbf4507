-- ===== src/Protocol/Control/Lines.antt =====
-- The lines of control messages: their characters, and that the newline behind them is the only one
-- that is trimmed.
use mathlib.Core.Logic.{◌≢◌}
use arapuca.Prelude.{
  ℕ, suc, ◌^◌, ◌≤◌, ◌<◌, ◌≡◌, refl, [], ◌∷◌, ◌++◌, Bool, true, false, ◌&&◌, ltb, ◌==◌,
  if◌then◌else◌, Str, codes, All, All-append, arith, length,
}
use arapuca.Prelude.Utf8.Coding.RoundTrip.{IsScalar}
use arapuca.Prelude.Decimal.{to_string, IsDigit, to_string-IsDigit, to_string-front, digit-ne}
use arapuca.Prelude.Signed.{ℤ, pos, negsuc, print_signed, IsI32}
use arapuca.Protocol.Json.{json_encode_string, json_encode_string_array}
use arapuca.Protocol.Request.{ExecRequest, tty_json, to_json}
use arapuca.Protocol.Control.{
  ControlMessage, hello, exec, status, shutdown, ping, pong, resize, line_of, kept,
  trim_end_newlines,
}
use arapuca.Protocol.Control.Characters.{
  IsText, is_ascii-IsText, is_ascii, behind_literal, json_encode_string-IsText,
  json_encode_string_array-IsText, to_string-IsText, print_signed-IsText,
}

-- A text that is not empty and does not end in a newline.
abbrev pub EndsWell : Str → Type 0
EndsWell [] = true ≡ false
EndsWell (c ∷ []) = c ≢ b'\n'
EndsWell (c ∷ d ∷ s) = EndsWell (d ∷ s)

-- A version that does not end in a newline; it may be empty.
abbrev pub IsVersion : Str → Type 0
IsVersion [] = Unit
IsVersion (c ∷ s) = EndsWell (c ∷ s)

EndsWell-append : (xs ys : Str) → EndsWell ys → EndsWell (xs ++ ys)
EndsWell-append [] ys h = h
EndsWell-append (x ∷ []) [] h = cc
EndsWell-append (x ∷ []) (y ∷ ys) h = h
EndsWell-append (x ∷ z ∷ xs) ys h = EndsWell-append (z ∷ xs) ys h

pub trim_end_newlines-EndsWell : (s : Str) → EndsWell s → trim_end_newlines (s ++ b'\n' ∷ []) ≡ s
unfolding trim_end_newlines kept
trim_end_newlines-EndsWell [] h = cc
trim_end_newlines-EndsWell (c ∷ []) h =
    let other : (c == b'\n') ≡ false = ground arith in rw other refl
trim_end_newlines-EndsWell (c ∷ d ∷ s) h = rw (trim_end_newlines-EndsWell (d ∷ s) h) refl

digits-EndsWell : (c : ℕ) (s : Str) → IsDigit c → All IsDigit s → EndsWell (c ∷ s)
digits-EndsWell c [] h k = digit-ne c b'\n' h refl
digits-EndsWell c (d ∷ s) h (hd, k) = digits-EndsWell d s hd k

to_string-EndsWell : (n : ℕ) → EndsWell (to_string n)
to_string-EndsWell n =
    let (c, s, digit, e) = to_string-front n in
    let (_, rest) : All IsDigit (c ∷ s) = rw e at (to_string-IsDigit n) in
    rw e (digits-EndsWell c s digit rest)

-- A message that the protocol can carry.
abbrev pub IsSendable : ControlMessage → Type 0
IsSendable (hello version) = IsText version × IsVersion version
IsSendable (exec req) =
    (IsText req.cmd × All IsText req.args × All IsText req.env × IsText req.user)
    × (length req.args ≤ 4096)
    × (length req.env ≤ 4096)
    × (req.rows < 2 ^ 16)
    × (req.cols < 2 ^ 16)
IsSendable (status exit_code) = IsI32 exit_code
IsSendable shutdown = Unit
IsSendable ping = Unit
IsSendable pong = Unit
IsSendable (resize rows cols) = (rows < 2 ^ 16) × (cols < 2 ^ 16)

-- The two properties of a line.
abbrev IsLine : Str → Type 0
IsLine s = IsText s × EndsWell s

IsLine-append : (xs ys : Str) → IsText xs → IsLine ys → IsLine (xs ++ ys)
IsLine-append xs ys h (k, e) = (All-append IsScalar xs ys h k, EndsWell-append xs ys e)

tty_json-IsText : (tty : Bool) (rows cols : ℕ) → IsText (tty_json tty rows cols)
unfolding tty_json
tty_json-IsText false rows cols = tt
tty_json-IsText true rows cols =
    behind_literal (codes ",\"tty\":true") _ refl (size (ltb 0 rows && ltb 0 cols))
  where
    size :
        (b : Bool)
        → IsText (
            if b
            then codes ",\"rows\":" ++ (to_string rows ++ (codes ",\"cols\":" ++ to_string cols))
            else [])
    size false = tt
    size true = behind_literal (codes ",\"rows\":") _ refl (
        All-append IsScalar (to_string rows) _ (to_string-IsText rows)
          (behind_literal (codes ",\"cols\":") (to_string cols) refl (to_string-IsText cols)))

IsLine-literal : (p s : Str) → is_ascii p ≡ true → IsLine s → IsLine (p ++ s)
IsLine-literal p s h k = IsLine-append p s (is_ascii-IsText p h) k

to_json-IsLine :
    (req : ExecRequest)
    → IsText req.cmd
    → All IsText req.args
    → All IsText req.env
    → IsText req.user
    → IsLine (to_json req)
unfolding to_json
to_json-IsLine req cmd args env user = IsLine-literal (codes "{\"cmd\":") _ refl (
    IsLine-append (json_encode_string req.cmd) _ (json_encode_string-IsText req.cmd cmd) (
      IsLine-literal (codes ",\"args\":") _ refl (
        IsLine-append (json_encode_string_array req.args) _
          (json_encode_string_array-IsText req.args args)
          (IsLine-literal (codes ",\"env\":") _ refl (
            IsLine-append (json_encode_string_array req.env) _
              (json_encode_string_array-IsText req.env env)
              (IsLine-literal (codes ",\"user\":") _ refl (
                IsLine-append (json_encode_string req.user) _
                  (json_encode_string-IsText req.user user)
                  (IsLine-append (tty_json req.tty req.rows req.cols) (codes "}")
                    (tty_json-IsText req.tty req.rows req.cols)
                    (is_ascii-IsText (codes "}") refl, cc)))))))))

print_signed-EndsWell : (n : ℤ) → EndsWell (print_signed n)
unfolding print_signed
print_signed-EndsWell (pos n) = to_string-EndsWell n
print_signed-EndsWell (negsuc n) =
    EndsWell-append (b'-' ∷ []) (to_string (suc n)) (to_string-EndsWell (suc n))

-- Every line that can be sent is text that does not end in a newline.
pub line_of-IsLine :
    (msg : ControlMessage) → IsSendable msg → IsText (line_of msg) × EndsWell (line_of msg)
unfolding line_of
line_of-IsLine (hello version) (text, ends) =
    (behind_literal (codes "HELLO ") version refl text, last version ends)
  where
    last : (version : Str) → IsVersion version → EndsWell (codes "HELLO " ++ version)
    last [] h = cc
    last (c ∷ s) h = EndsWell-append (codes "HELLO ") (c ∷ s) h
line_of-IsLine (exec req) ((cmd, args, env, user), _, _, _, _) =
    IsLine-literal (codes "EXEC ") (to_json req) refl (to_json-IsLine req cmd args env user)
line_of-IsLine (status n) h =
    IsLine-literal (codes "STATUS ") (print_signed n) refl
      (print_signed-IsText n, print_signed-EndsWell n)
line_of-IsLine shutdown h = (is_ascii-IsText (codes "SHUTDOWN") refl, cc)
line_of-IsLine ping h = (is_ascii-IsText (codes "PING") refl, cc)
line_of-IsLine pong h = (is_ascii-IsText (codes "PONG") refl, cc)
line_of-IsLine (resize rows cols) h = IsLine-literal (codes "RESIZE ") _ refl (
    IsLine-append (to_string rows) (b' ' ∷ to_string cols) (to_string-IsText rows) (
      IsLine-literal (b' ' ∷ []) (to_string cols) refl
        (to_string-IsText cols, to_string-EndsWell cols)))
