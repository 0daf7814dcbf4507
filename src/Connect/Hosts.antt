-- ===== src/Connect/Hosts.antt =====
-- Which hosts a rule of src/bridge.rs lets through.
use mathlib.Core.List.{reverse, reverse-append, reverse-reverse}
use arapuca.Prelude.{
  ℕ, ◌≡◌, ◌≢◌, sym, ap, ◌∙◌, ◌↔◌, ◌⊎◌, refl, inl, inr, [], ◌∷◌, ◌++◌, Bool, true, false, ◌||◌,
  Bytes, beq, beq_sound, beq_refl, starts_with, starts_with_sound, starts_with-append, ◌==◌, ==_iff,
  Bool-cases,
}
use arapuca.Connect.{AllowedHost, ends_with, host_matches, matches}

-- What a rule means: a domain that begins with a dot stands for itself without the dot and for
-- everything below it, and any other host for itself.
abbrev pub Covers : Bytes → Bytes → Type 0
Covers [] host = host ≡ []
Covers (c ∷ rest) host =
    ((c ≡ b'.') × ((host ≡ rest) ⊎ ((front : Bytes) × (host ≡ front ++ c ∷ rest))))
    ⊎ ((c ≢ b'.') × (host ≡ c ∷ rest))

pub ends_with_sound :
    (suffix s : Bytes) → ends_with suffix s ≡ true → (front : Bytes) × (s ≡ front ++ suffix)
unfolding ends_with
ends_with_sound suffix s h =
    let (rest, e) = starts_with_sound (reverse suffix) (reverse s) h in
    (
      reverse rest,
      sym (reverse-reverse s)
          ∙ ap reverse e
          ∙ reverse-append (reverse suffix) rest
          ∙ ap (λ t. reverse rest ++ t) (reverse-reverse suffix),
    )

pub ends_with-append : (front suffix : Bytes) → ends_with suffix (front ++ suffix) ≡ true
unfolding ends_with
ends_with-append front suffix =
    ap (starts_with (reverse suffix)) (reverse-append front suffix)
    ∙ starts_with-append (reverse suffix) (reverse front)

host_matches_iff : (rule host : Bytes) → (host_matches rule host ≡ true) ↔ Covers rule host
unfolding host_matches
host_matches_iff [] host = (λ h. sym (beq_sound [] host h), λ e. rw e refl)
host_matches_iff (c ∷ rest) host = elim (Bool-cases (c == b'.')) [
  | inl e ↦
      let dot : c ≡ b'.' = (==_iff c b'.').0 e in
      rw e (
        λ h. inl (dot, below h),
        λ k. elim k [
          | inl (_, inl same) ↦ rw same (or_true (ends_with (c ∷ rest) rest) (beq_refl rest))
          | inl (_, inr (front, same)) ↦ rw (same, ends_with-append front (c ∷ rest)) refl
          | inr (other, _) ↦ absurd (other dot)
        ],
      )
  | inr e ↦
      let other : c ≢ b'.' = λ dot. cc (sym e ∙ (==_iff c b'.').1 dot) in
      rw e (
        λ h. inr (other, sym (beq_sound (c ∷ rest) host h)),
        λ k. elim k [
          | inl (dot, _) ↦ absurd (other dot)
          | inr (_, same) ↦ rw same (beq_refl (c ∷ rest))
        ],
      )
]
  where
    or_true : (x : Bool) {y : Bool} → y ≡ true → (x || y) ≡ true
    or_true true h = refl
    or_true false h = h

    below :
        (ends_with (c ∷ rest) host || beq host rest) ≡ true
        → (host ≡ rest) ⊎ ((front : Bytes) × (host ≡ front ++ c ∷ rest))
    below h = elim (Bool-cases (ends_with (c ∷ rest) host)) [
      | inl e ↦ inr (ends_with_sound (c ∷ rest) host e)
      | inr e ↦ inl (beq_sound host rest (rw e at h))
    ]

-- A rule lets a host and a port through exactly if the port is the rule's, and the host is the
-- rule's host, or, where that begins with a dot, the domain behind the dot or a name below it.
pub matches_iff :
    (rule : AllowedHost) (host : Bytes) (port : ℕ)
    → (matches rule host port ≡ true) ↔ ((rule.port ≡ port) × Covers rule.host host)
unfolding matches
matches_iff rule host port = elim (Bool-cases (rule.port == port)) [
  | inl e ↦
      let same : rule.port ≡ port = (==_iff rule.port port).0 e in
      let inner = host_matches_iff rule.host host in rw e (λ h. (same, inner.0 h), λ k. inner.1 k.1)
  | inr e ↦ rw e (λ h. absurd (cc h), λ k. absurd (cc (sym e ∙ (==_iff rule.port port).1 k.0)))
]
