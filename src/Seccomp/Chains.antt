-- ===== src/Seccomp/Chains.antt =====
-- What maps of rules match: the rules inserted one by one, and lists of system calls.
use mathlib.Core.Path.{subst}
use arapuca.Prelude.{
  ℕ, ◌≡◌, refl, sym, ap, ◌∙◌, List, [], ◌∷◌, Bool, true, false, ◌&&◌, ◌||◌, Option, none, some,
  ◌==◌, ==_iff, any, all, Bool-cases, inl, inr,
}
use arapuca.Seccomp.Kernel.{Rule, Rules, Call, insert, get, hit, matched}
use arapuca.Seccomp.Filters.{insert_all}

-- Whether a number is in a list.
unfoldable pub is_among : ℕ → List ℕ → Bool
is_among n list = any (λ x. n == x) list

matched-get :
    (c : Call) (m : Rules) (o : Option (List Rule))
    → get c.nr m ≡ o
    → matched c m ≡ elim o [ none ↦ false | some rs ↦ hit c rs ]
unfolding matched
matched-get c m o e = rw (e, matched) refl

get-same :
    (n k : ℕ) (rs : List Rule) (m : Rules) → (n == k) ≡ true → get n (insert k rs m) ≡ some rs
unfolding get insert
get-same n k rs m e = rw (e, get, insert) refl

get-other :
    (n k : ℕ) (rs : List Rule) (m : Rules) → (n == k) ≡ false → get n (insert k rs m) ≡ get n m
unfolding get insert
get-other n k rs m e = rw (e, get, insert) refl

or_false : (b : Bool) → b ≡ (b || false)
or_false true = refl
or_false false = refl

matched-same : (c : Call) (m m' : Rules) → get c.nr m ≡ get c.nr m' → matched c m ≡ matched c m'
unfolding matched
matched-same c m m' e = ap (λ o. elim o [ none ↦ false | some rs ↦ hit c rs ]) e

-- A new key adds its own matches `t` to those, `d`, of the map.
pub matched-insert :
    (c : Call) (k : ℕ) (rs : List Rule) (m : Rules) (d t : Bool)
    → get k m ≡ none
    → matched c m ≡ d
    → hit c rs ≡ t
    → matched c (insert k rs m) ≡ (d || (c.nr == k && t))
matched-insert c k rs m d t fresh e_d e_t = elim (Bool-cases (c.nr == k)) [
  | inl e ↦
      let same : c.nr ≡ k = (==_iff c.nr k).0 e in
      let nothing : matched c m ≡ false = matched-get c m none (ap (λ n. get n m) same ∙ fresh) in
      matched-get c (insert k rs m) (some rs) (get-same c.nr k rs m e)
      ∙ rw (sym e_d ∙ nothing, e) e_t
  | inr e ↦ matched-same c (insert k rs m) m (get-other c.nr k rs m e) ∙ e_d ∙ rw e (or_false d)
]

matched-insert-[] :
    (c : Call) (k : ℕ) (m : Rules) → matched c (insert k [] m) ≡ ((c.nr == k) || matched c m)
unfolding hit
matched-insert-[] c k m = elim (Bool-cases (c.nr == k)) [
  | inl e ↦ matched-get c (insert k [] m) (some []) (get-same c.nr k [] m e) ∙ rw e refl
  | inr e ↦ matched-same c (insert k [] m) m (get-other c.nr k [] m e) ∙ rw e refl
]

or_comm : (a b : Bool) → (a || b) ≡ (b || a)
or_comm true true = refl
or_comm true false = refl
or_comm false true = refl
or_comm false false = refl

-- A key without conditions adds its calls.
pub matched-insert_bare :
    (c : Call) (k : ℕ) (m : Rules) (d : Bool)
    → matched c m ≡ d
    → matched c (insert k [] m) ≡ (d || c.nr == k)
matched-insert_bare c k m d e =
    matched-insert-[] c k m ∙ ap (λ t. (c.nr == k) || t) e ∙ or_comm (c.nr == k) d

swap_or : (a b d : Bool) → (a || (b || d)) ≡ ((b || a) || d)
swap_or true true d = refl
swap_or true false d = refl
swap_or false true d = refl
swap_or false false d = refl

matched-insert_all :
    (c : Call) (list : List ℕ) (m : Rules)
    → matched c (insert_all list m) ≡ (is_among c.nr list || matched c m)
unfolding insert_all is_among
matched-insert_all c [] m = refl
matched-insert_all c (nr ∷ list) m =
    matched-insert_all c list (insert nr [] m)
    ∙ ap (λ t. is_among c.nr list || t) (matched-insert-[] c nr m)
    ∙ swap_or (is_among c.nr list) (c.nr == nr) (matched c m)

pub matched-listed :
    (c : Call) (list : List ℕ) → matched c (insert_all list []) ≡ is_among c.nr list
unfolding matched get
matched-listed c list = matched-insert_all c list [] ∙ sym (or_false (is_among c.nr list))

and_first : (a b : Bool) → (a && b) ≡ true → a ≡ true
and_first true b h = refl
and_first false b h = h

and_rest : (a b : Bool) → (a && b) ≡ true → b ≡ true
and_rest true b h = h
and_rest false b h = absurd (cc h)

-- A list within another.
pub is_among_within :
    (xs ys : List ℕ) (n : ℕ)
    → all (λ x. is_among x ys) xs ≡ true
    → is_among n xs ≡ true
    → is_among n ys ≡ true
unfolding is_among
is_among_within [] ys n h e = absurd (cc e)
is_among_within (x ∷ xs) ys n h e = elim (Bool-cases (n == x)) [
  | inl q ↦
      subst (λ y. is_among y ys ≡ true) (sym ((==_iff n x).0 q)) (and_first (is_among x ys) _ h)
  | inr q ↦ is_among_within xs ys n (and_rest (is_among x ys) _ h) (rw q at e)
]

-- A list of system calls on top of a map.
pub matched-listed_on :
    (c : Call) (list : List ℕ) (m : Rules) (d : Bool)
    → matched c m ≡ d
    → matched c (insert_all list m) ≡ (d || is_among c.nr list)
matched-listed_on c list m d e =
    matched-insert_all c list m
    ∙ ap (λ t. is_among c.nr list || t) e
    ∙ or_comm (is_among c.nr list) d
