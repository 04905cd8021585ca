-- ===== src/Mngr/Matching.antt =====
-- mngr.c: the links between ports of bridges as a matching of places, each the address of a bridge
-- and the index of a port.
use lacp.Base.{
  ℕ, ◌≡◌, refl, sym, ap, ◌∙◌, subst, Bool, true, false, ◌&&◌, ◌||◌, ◌==◌, Bool-cases, inl, inr,
  if◌then◌else◌, Option, none, some, arith,
}

abbrev pub Place : Type 0
Place = ℕ × ℕ

abbrev pub at : Place → Place → Bool
at x y = x.0 == y.0 && x.1 == y.1

pub at_eq : (x y : Place) → at x y ≡ true → x ≡ y
at_eq (a, k) (b, j) h = same_pair (ground (arith, h)) (ground (arith, h))
  where
    same_pair : a ≡ b → k ≡ j → ◌≡◌ {A = Place} (a, k) (b, j)
    same_pair p q = cc

pub at_self : (x : Place) → at x x ≡ true
at_self x = ground arith

-- Whoever is linked is linked back.
abbrev pub Matches : (Place → Option Place) → Type 0
Matches f = (x y : Place) → f x ≡ some y → f y ≡ some x

-- Without the link between two places.
abbrev pub cut : (Place → Option Place) → Place → Place → Place → Option Place
cut f x y z = if at x z || at y z then none else f z

-- With a link between two places.
abbrev pub join : (Place → Option Place) → Place → Place → Place → Option Place
join f x y z = if at x z then some y else if at y z then some x else f z

pub clash : {b : Bool} → b ≡ true → b ≡ false → ⊥
clash p q = cc

pub some_eq : {x y : Place} → some x ≡ some y → x ≡ y
some_eq e = cc

-- Two places that are not the same.
apart :
    (f : Place → Option Place) (x z u w : Place)
    → f x ≡ some w
    → f z ≡ some u
    → at w u ≡ false
    → at x z ≡ false
apart f x z u w e h n = elim (Bool-cases (at x z)) [
  | inl k ↦
      absurd (
        clash (subst (λ p. at w p ≡ true) (some_eq (sym e ∙ ap f (at_eq x z k) ∙ h)) (at_self w)) n)
  | inr k ↦ k
]

cut_some :
    (b c : Bool) (o : Option Place) (v : Place)
    → (if b || c then none else o) ≡ some v
    → (b ≡ false) × (c ≡ false) × (o ≡ some v)
cut_some true c o v h = cc
cut_some false true o v h = cc
cut_some false false o v h = (refl, refl, h)

cut_else :
    (b c : Bool) (o : Option Place) → b ≡ false → c ≡ false → (if b || c then none else o) ≡ o
cut_else true c o h k = cc
cut_else false true o h k = cc
cut_else false false o h k = refl

pub cut-Matches :
    (f : Place → Option Place) (x y : Place) → Matches f → f x ≡ some y → Matches (cut f x y)
cut-Matches f x y m e u v h =
    let (b, c, k) = cut_some (at x u) (at y u) (f u) v h in
    cut_else (at x v) (at y v) (f v) (apart f x v u y e (m u v k) c)
      (apart f y v u x (m x y e) (m u v k) b)
    ∙ m u v k

pub none-some : {u : Place} → none ≡ some u → ⊥
none-some p = cc

join-none : (f : Place → Option Place) (x z u : Place) → f x ≡ none → f z ≡ some u → at x z ≡ false
join-none f x z u e h = elim (Bool-cases (at x z)) [
  | inl k ↦ absurd (none-some (sym e ∙ ap f (at_eq x z k) ∙ h))
  | inr k ↦ k
]

join_else :
    (b c : Bool) (o p q : Option Place)
    → b ≡ false
    → c ≡ false
    → (if b then p else if c then q else o) ≡ o
join_else true c o p q h k = cc
join_else false true o p q h k = cc
join_else false false o p q h k = refl

join_first :
    (b c : Bool) (o p q : Option Place) → b ≡ true → (if b then p else if c then q else o) ≡ p
join_first true c o p q h = refl
join_first false c o p q h = cc

join_second :
    (b c : Bool) (o p q : Option Place)
    → b ≡ false
    → c ≡ true
    → (if b then p else if c then q else o) ≡ q
join_second true c o p q h k = cc
join_second false true o p q h k = refl
join_second false false o p q h k = cc

-- The place where a link ends, as the end of a link.
join_back : (f : Place → Option Place) (x y : Place) → join f x y y ≡ some x
join_back f x y = elim (Bool-cases (at x y)) [
  | inl k ↦ rw k (ap some (sym (at_eq x y k)))
  | inr k ↦ rw (k, at_self y) refl
]

pub join-Matches :
    (f : Place → Option Place) (x y : Place)
    → Matches f
    → f x ≡ none
    → f y ≡ none
    → Matches (join f x y)
join-Matches f x y m e d u v h = elim (Bool-cases (at x u)) [
  | inl k ↦
      ap (join f x y) (some_eq (sym h ∙ join_first (at x u) (at y u) (f u) _ _ k))
      ∙ join_back f x y
      ∙ ap some (at_eq x u k)
  | inr k ↦ elim (Bool-cases (at y u)) [
    | inl l ↦
        ap (join f x y) (some_eq (sym h ∙ join_second (at x u) (at y u) (f u) _ _ k l))
        ∙ join_first (at x x) (at y x) (f x) _ _ (at_self x)
        ∙ ap some (at_eq y u l)
    | inr l ↦
        let b = m u v (sym (join_else (at x u) (at y u) (f u) _ _ k l) ∙ h) in
        join_else (at x v) (at y v) (f v) _ _ (join-none f x v u e b) (join-none f y v u d b) ∙ b
  ]
]
