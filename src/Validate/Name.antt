-- ===== src/Validate/Name.antt =====
-- Task IDs and permissions in src/validate.rs.
use arapuca.Prelude.{
  ℕ, ◌+◌, ◌-◌, ◌*◌, ◌≤◌, ◌≡◌, refl, ◌↔◌, ◌⊎◌, true, [], ◌∷◌, arith, ok, Bytes, length, all, All,
  Lacks,
}
use arapuca.FilePath.Names.{IsName}
use arapuca.Validate.{
  is_task_id_byte, max_task_id_len, sanitize_task_id, validate_guest_permissions,
}

-- A letter, a digit or "-".
abbrev pub IsTaskIdByte : ℕ → Type 0
IsTaskIdByte b =
    ((b'a' ≤ b) × (b ≤ b'z')) ⊎ ((b'A' ≤ b) × (b ≤ b'Z')) ⊎ ((b'0' ≤ b) × (b ≤ b'9')) ⊎ (b ≡ b'-')

is_task_id_byte_sound : (b : ℕ) → is_task_id_byte b ≡ true → IsTaskIdByte b
is_task_id_byte_sound b h = ground arith

is_task_id_byte_complete : (b : ℕ) → IsTaskIdByte b → is_task_id_byte b ≡ true
is_task_id_byte_complete b h = ground arith

all_task_id : (id : Bytes) → all is_task_id_byte id ≡ true → All IsTaskIdByte id
all_task_id [] h = tt
all_task_id (b ∷ id) h = (is_task_id_byte_sound b (ground arith), all_task_id id (ground arith))

task_id_all : (id : Bytes) → All IsTaskIdByte id → all is_task_id_byte id ≡ true
task_id_all [] h = refl
task_id_all (b ∷ id) (hb, h) = rw (is_task_id_byte_complete b hb) (task_id_all id h)

-- A task ID is accepted exactly if it has 1 to 128 bytes, each a letter, a digit or "-"; what is
-- returned is the ID itself.
pub sanitize_task_id_iff :
    (id r : Bytes)
    → (sanitize_task_id id ≡ ok r)
      ↔ ((r ≡ id) × (1 ≤ length id) × (length id ≤ max_task_id_len) × All IsTaskIdByte id)
unfolding sanitize_task_id
sanitize_task_id_iff [] r = (λ h. cc, λ h. absurd (omega arith))
sanitize_task_id_iff (b ∷ id) r = (
  λ h. (ground arith, omega arith, ground arith, all_task_id (b ∷ id) (ground arith)),
  λ (e, _, n, h). ground (arith, task_id_all (b ∷ id) h),
)

Lacks-task_id : (id : Bytes) → All IsTaskIdByte id → Lacks b'/' id
Lacks-task_id [] h = tt
Lacks-task_id (b ∷ id) (hb, h) = (ground arith, Lacks-task_id id h)

-- An accepted task ID is one plain name in a path: not empty, not "." or "..", with no slash.
pub sanitize_task_id-IsName : (id r : Bytes) → sanitize_task_id id ≡ ok r → IsName r
sanitize_task_id-IsName id r h =
    let (e, n, _, bytes) = (sanitize_task_id_iff id r).0 h in rw e (name id n bytes)
  where
    name : (s : Bytes) → 1 ≤ length s → All IsTaskIdByte s → IsName s
    name [] n k = absurd (omega arith)
    name (b ∷ s) n k = (cc, (λ q. ground arith), (λ q. ground arith), Lacks-task_id (b ∷ s) k)

abbrev pub IsOctal : ℕ → Type 0
IsOctal b = (b'0' ≤ b) × (b ≤ b'7')

abbrev pub octal_from : ℕ → Bytes → ℕ
octal_from n [] = n
octal_from n (b ∷ s) = octal_from (n * 8 + (b - b'0')) s

-- Three octal digits, or four of which the first is 0.
abbrev pub IsPermissions : Bytes → Type 0
IsPermissions (a ∷ b ∷ c ∷ []) = IsOctal a × IsOctal b × IsOctal c
IsPermissions (z ∷ a ∷ b ∷ c ∷ []) = (z ≡ b'0') × IsOctal a × IsOctal b × IsOctal c
IsPermissions _ = ⊥

-- The permissions are accepted exactly if they are three octal digits, or four of which the first
-- is 0.
pub validate_guest_permissions_iff :
    (perms : Bytes) → (validate_guest_permissions perms ≡ ok tt) ↔ IsPermissions perms
unfolding validate_guest_permissions
validate_guest_permissions_iff [] = ground arith
validate_guest_permissions_iff (a ∷ []) = ground arith
validate_guest_permissions_iff (a ∷ b ∷ []) = ground arith
validate_guest_permissions_iff (a ∷ b ∷ c ∷ []) = ground arith
validate_guest_permissions_iff (a ∷ b ∷ c ∷ d ∷ []) = ground arith
validate_guest_permissions_iff (a ∷ b ∷ c ∷ d ∷ e ∷ s) = ground arith

-- Accepted permissions, read in octal, set no bit above 0o777: no setuid, setgid or sticky bit.
pub validate_guest_permissions_bound :
    (perms : Bytes) → validate_guest_permissions perms ≡ ok tt → octal_from 0 perms ≤ 0o777
validate_guest_permissions_bound perms h = bound perms ((validate_guest_permissions_iff perms).0 h)
  where
    bound : (s : Bytes) → IsPermissions s → octal_from 0 s ≤ 0o777
    bound [] k = absurd k
    bound (a ∷ []) k = absurd k
    bound (a ∷ b ∷ []) k = absurd k
    bound (a ∷ b ∷ c ∷ []) k = omega arith
    bound (a ∷ b ∷ c ∷ d ∷ []) k = omega arith
    bound (a ∷ b ∷ c ∷ d ∷ e ∷ s) k = absurd k
