-- ===== src/Validate/GuestPath.antt =====
-- Which guest paths `validate_guest_path` lets through.
use mathlib.Core.Path.{subst}
use arapuca.Prelude.{
  ℕ, ◌≡◌, refl, sym, ap, ◌∙◌, ◌≢◌, ◌↔◌, inl, inr, Bool, true, false, List, [], ◌∷◌, ◌++◌,
  append_assoc, append-nil, arith, ok, ◌==◌, Bytes, codes, any, map, beq, beq_sound, beq_refl,
  beq_ne, All, Lacks, Bool-cases, split, split-Lacks, starts_with_sound, starts_with-append,
  cut_unique,
}
use arapuca.FilePath.{
  Component, root_dir, cur_dir, parent_dir, normal, slash, part_components, body, relative,
  components, normalize, render, normalize_path, push,
}
use arapuca.FilePath.Names.{IsName, IsPlain, IsSegment, relative-IsSegment}
use arapuca.FilePath.Render.{spell, render_absolute}
use arapuca.FilePath.Normal.{resolve_all_normal}
use arapuca.Validate.{
  in_denied_prefix, guest_path_deny_prefixes, check_normalized, validate_guest_path,
}

has_dotdot : List Bytes → Bool
has_dotdot = any (λ c. beq c (codes ".."))

-- Without a ".." part, all components of the parts are names; and the other way round.
body-IsPlain :
    (parts : List Bytes)
    → All (Lacks b'/') parts
    → (has_dotdot parts ≡ false) ↔ All IsPlain (body parts)
unfolding has_dotdot body part_components
body-IsPlain [] h = (λ _. tt, λ _. refl)
body-IsPlain (part ∷ parts) (hp, h) = ground (
  arith,
  body-IsPlain parts h,
  beq_sound part [],
  beq_sound part (codes "."),
  beq_sound part (codes ".."),
  beq_ne part [],
  beq_ne part (codes "."),
  beq_ne part (codes ".."),
)

sep_not_Lacks : (p q : Bytes) → Lacks b'/' (p ++ b'/' ∷ q) → ⊥
sep_not_Lacks [] q h = h.0 refl
sep_not_Lacks (c ∷ p) q h = sep_not_Lacks p q h.1

-- The spelling of a path lies under the denied directory `d` exactly if its first name is `d`.
in_denied_prefix_sound :
    (d n : Bytes) (cs : List Component)
    → Lacks b'/' d
    → Lacks b'/' n
    → All IsPlain cs
    → in_denied_prefix (b'/' ∷ (n ++ spell cs)) (b'/' ∷ d) ≡ true
    → n ≡ d
in_denied_prefix_sound d n [] hd hn _ h = elim (Bool-cases (beq (n ++ []) d)) [
  | inl e ↦ sym (append-nil n) ∙ beq_sound (n ++ []) d e
  | inr e ↦
      let (rest, q) = starts_with_sound (d ++ slash) (n ++ []) (ground arith) in
      absurd (sep_not_Lacks d rest (rw (← append_assoc d slash rest, ← q, append-nil) hn))
]
in_denied_prefix_sound d n (normal m ∷ cs) hd hn hs h =
    elim (Bool-cases (beq (n ++ b'/' ∷ (m ++ spell cs)) d)) [
      | inl e ↦
          absurd
            (sep_not_Lacks n (m ++ spell cs) (rw (beq_sound (n ++ b'/' ∷ (m ++ spell cs)) d e) hd))
      | inr e ↦
          let (rest, q) =
            starts_with_sound (d ++ slash) (n ++ b'/' ∷ (m ++ spell cs)) (ground arith) in
          cut_unique b'/' n d (m ++ spell cs) rest hn hd (q ∙ append_assoc d slash rest)
    ]
in_denied_prefix_sound d n (root_dir ∷ cs) hd hn hs h = absurd hs.0
in_denied_prefix_sound d n (cur_dir ∷ cs) hd hn hs h = absurd hs.0
in_denied_prefix_sound d n (parent_dir ∷ cs) hd hn hs h = absurd hs.0

in_denied_prefix_self :
    (d : Bytes) (cs : List Component)
    → All IsPlain cs
    → in_denied_prefix (b'/' ∷ (d ++ spell cs)) (b'/' ∷ d) ≡ true
in_denied_prefix_self d [] _ = rw append-nil (ground (arith, beq_refl d))
in_denied_prefix_self d (normal m ∷ cs) _ =
    let e = append_assoc d slash (m ++ spell cs) in
    rw (← e) (ground (arith, starts_with-append (d ++ slash) (m ++ spell cs)))
in_denied_prefix_self d (root_dir ∷ cs) h = absurd h.0
in_denied_prefix_self d (cur_dir ∷ cs) h = absurd h.0
in_denied_prefix_self d (parent_dir ∷ cs) h = absurd h.0

abbrev pub denied_names : List Bytes
denied_names = codes "proc" ∷ codes "sys" ∷ codes "dev" ∷ codes "cidata" ∷ codes "agent" ∷ []

module _ (n : Bytes) (cs : List Component) (hn : IsName n) (hs : All IsPlain cs) where
  denied_iff :
      (d : Bytes)
      → Lacks b'/' d
      → (in_denied_prefix (b'/' ∷ (n ++ spell cs)) (b'/' ∷ d) ≡ true) ↔ (n ≡ d)
  denied_iff d hd =
      (in_denied_prefix_sound d n cs hd hn.3 hs, λ e. rw e (in_denied_prefix_self d cs hs))

  any_denied_iff :
      (ds : List Bytes)
      → All (Lacks b'/') ds
      → (any (in_denied_prefix (b'/' ∷ (n ++ spell cs))) (map (λ d. b'/' ∷ d) ds) ≡ false)
        ↔ All (λ d. n ≢ d) ds
  any_denied_iff [] h = (λ _. tt, λ _. refl)
  any_denied_iff (d ∷ ds) (hd, h) =
      let (to, from) = denied_iff d hd in
      let (rest_to, rest_from) = any_denied_iff ds h in
      elim (Bool-cases (in_denied_prefix (b'/' ∷ (n ++ spell cs)) (b'/' ∷ d))) [
        | inl e ↦ rw e (λ p. cc, λ k. absurd (k.0 (to e)))
        | inr e ↦ rw e (λ p. ((λ q. cc (from q)), rest_to p), λ k. rest_from k.1)
      ]

-- A file below the root, none of whose directories is denied at the top.
abbrev pub IsGuestFile : List Component → Type 0
IsGuestFile (root_dir ∷ normal n ∷ cs) = All IsPlain (normal n ∷ cs) × All (λ d. n ≢ d) denied_names
IsGuestFile _ = ⊥

check_normalized_iff :
    (b : List Component)
    → All IsPlain b
    → (check_normalized (render (root_dir ∷ b)) ≡ ok tt) ↔ IsGuestFile (root_dir ∷ b)
unfolding check_normalized
check_normalized_iff [] h = unfold render push in (λ e. cc, λ k. absurd k)
check_normalized_iff (normal n ∷ cs) (hn, hs) =
    let denied = any_denied_iff n cs hn hs denied_names (omega arith) in
    rw
      (
        render_absolute n cs hn hs,
        beq_ne (b'/' ∷ (n ++ spell cs)) slash (λ e. empty n (spell cs) e hn.0),
      )
      elim (Bool-cases (any (in_denied_prefix (b'/' ∷ (n ++ spell cs))) guest_path_deny_prefixes)) [
        | inl e ↦ rw e (λ q. cc, λ k. cc (denied.1 k.1))
        | inr e ↦ rw e (λ q. ((hn, hs), denied.0 e), λ k. refl)
      ]
  where
    empty : (m r : Bytes) → b'/' ∷ (m ++ r) ≡ slash → m ≢ [] → ⊥
    empty [] r e k = k refl
    empty (c ∷ m) r e k = cc
check_normalized_iff (root_dir ∷ cs) h = absurd h.0
check_normalized_iff (cur_dir ∷ cs) h = absurd h.0
check_normalized_iff (parent_dir ∷ cs) h = absurd h.0

guest_file-IsPlain : (b : List Component) → IsGuestFile (root_dir ∷ b) → All IsPlain b
guest_file-IsPlain [] h = tt
guest_file-IsPlain (normal n ∷ cs) h = h.0
guest_file-IsPlain (root_dir ∷ cs) h = absurd h
guest_file-IsPlain (cur_dir ∷ cs) h = absurd h
guest_file-IsPlain (parent_dir ∷ cs) h = absurd h

segments-not-IsGuestFile : (cs : List Component) → All IsSegment cs → ¬ IsGuestFile cs
segments-not-IsGuestFile [] h k = k
segments-not-IsGuestFile (root_dir ∷ cs) h k = h.0
segments-not-IsGuestFile (normal n ∷ cs) h k = k
segments-not-IsGuestFile (cur_dir ∷ cs) h k = k
segments-not-IsGuestFile (parent_dir ∷ cs) h k = k

absolute_iff :
    (p : Bytes)
    → (validate_guest_path (b'/' ∷ p) ≡ ok tt) ↔ IsGuestFile (root_dir ∷ body (split b'/' p))
unfolding validate_guest_path
absolute_iff p =
    let (plain_to, plain_from) = body-IsPlain (split b'/' p) (split-Lacks b'/' p) in
    elim (Bool-cases (has_dotdot (split b'/' p))) [
      | inl e ↦
          unfold has_dotdot in
          rw e (λ q. cc, λ k. cc (plain_from (guest_file-IsPlain (body (split b'/' p)) k)))
      | inr e ↦
          let plain = plain_to e in
          let same : normalize_path (b'/' ∷ p) ≡ render (root_dir ∷ body (split b'/' p)) =
            unfold normalize_path normalize components in
            ap render (resolve_all_normal (root_dir ∷ body (split b'/' p)) plain) in
          unfold has_dotdot in rw (e, same) (check_normalized_iff (body (split b'/' p)) plain)
    ]

components-relative :
    (c : ℕ) (p : Bytes) → (c == b'/') ≡ false → components (c ∷ p) ≡ relative (split b'/' (c ∷ p))
unfolding components
components-relative c p e = ground arith

-- A guest path is accepted exactly if its components are the root and then names only, the first of
-- which is not "proc", "sys", "dev", "cidata" or "agent".
pub validate_guest_path_iff :
    (path : Bytes) → (validate_guest_path path ≡ ok tt) ↔ IsGuestFile (components path)
unfolding validate_guest_path
validate_guest_path_iff [] = unfold components in (λ e. cc, λ k. absurd k)
validate_guest_path_iff (c ∷ p) = elim (Bool-cases (c == b'/')) [
  | inl e ↦
      let slash_first : b'/' ≡ c = ground arith in
      subst (λ d. (validate_guest_path (d ∷ p) ≡ ok tt) ↔ IsGuestFile (components (d ∷ p)))
        slash_first (unfold components in absolute_iff p)
  | inr e ↦ (
    λ q. ground arith,
    λ k. absurd (
        segments-not-IsGuestFile (relative (split b'/' (c ∷ p)))
          (relative-IsSegment (split b'/' (c ∷ p)) (split-Lacks b'/' (c ∷ p)))
          (rw (components-relative c p e) at k)),
  )
]
