-- ===== src/Mngr/Linked.antt =====
-- mngr.c: the calls of the manager, on links that go both ways.
use lacp.Base.{
  ℕ, ◌^◌, ◌<◌, ◌≡◌, refl, sym, ap, ◌∙◌, subst, Bool, true, false, ◌||◌, ◌⊎◌, ◌==◌, Bool-cases, inl,
  inr, if◌then◌else◌, Option, none, some, List, [], ◌∷◌, In, arith,
}
use lacp.Types.{◌>>=◌}
use lacp.Create.Table.{Nodup}
use lacp.Mngr.{Mngr, in_array, disconnect_port, last_bridge, invalid}
use lacp.Mngr.Matching.{Place, at, at_eq, Matches, cut, join, none-some, some_eq}
use lacp.Mngr.Ports.{view, Kept, Kept-trans, Kept-in_array, Leaves, view-some}
use lacp.Live.{Returns, Returns-bind, Returns-map}
use lacp.Mngr.Writes.{disconnect_port-Leaves, disconnect_port-none}

-- The bridges are different, below the next address, and linked both ways.
pub record IsLinked (m : Mngr) : Type 0 where
  pub once : Nodup m.br_lst
  pub below : (a : ℕ) → In a m.br_lst → a < m.fresh
  pub matched : Matches (view m)

pub Matches-eq : (f g : Place → Option Place) → ((x : Place) → g x ≡ f x) → Matches f → Matches g
Matches-eq f g e m x y h = e y ∙ m x y (sym (e x) ∙ h)

pub Kept-IsLinked :
    (m v : Mngr) (f : Place → Option Place) → Leaves m f v → Matches f → IsLinked m → IsLinked v
Kept-IsLinked m v f (k, e) h l = record {
  once = subst Nodup (sym k.list) l.once;
  below = λ a i. subst (λ n. a < n) (sym k.fresh) (l.below a (subst (In a) k.list i));
  matched = Matches-eq f (view v) e h;
}

-- The partner of a place is a port of an allocated bridge.
pub partner_in :
    (m : Mngr) (a k b j : ℕ)
    → Matches (view m)
    → view m (a, k) ≡ some (b, j)
    → in_array m b j ≡ true
partner_in m a k b j h e = (view-some m b j (a, k) (h (a, k) (b, j) e)).0

or_same : (c : Bool) (o : Option Place) → (if c then none else o) ≡ (if c || c then none else o)
or_same true o = refl
or_same false o = refl

or_swap :
    (c d : Bool) (o : Option Place)
    → (if d then none else if c then none else o) ≡ (if c || d then none else o)
or_swap true true o = refl
or_swap true false o = refl
or_swap false d o = refl

-- A link that is cut at both ends.
pub both_ends :
    (m : Mngr) (a k b j : ℕ)
    → Matches (view m)
    → view m (a, k) ≡ some (b, j)
    → Returns
        (disconnect_port a k true m >>= disconnect_port b j true)
        (Leaves m (cut (view m) (a, k) (b, j)))
both_ends m a k b j h e =
    let i = partner_in m a k b j h e in
    Returns-bind (disconnect_port a k true m) (disconnect_port b j true) _ _
      (disconnect_port-Leaves m a k b j true e i)
      (λ u (q, d). elim (Bool-cases (at (a, k) (b, j))) [
        | inl s ↦
            Returns-map (disconnect_port b j true u) _ _
              (disconnect_port-none u b j true (Kept-in_array m u q b j ∙ i) (d (b, j) ∙ rw s refl))
              (λ v (r, t). (
                Kept-trans m u v q r,
                λ x.
                    t x
                    ∙ d x
                    ∙ or_same (at (a, k) x) (view m x)
                    ∙ ap (λ y. if at (a, k) x || at y x then none else view m x)
                        (at_eq (a, k) (b, j) s),
              ))
        | inr s ↦
            Returns-map (disconnect_port b j true u) _ _
              (disconnect_port-Leaves u b j a k true (d (b, j) ∙ rw s (h (a, k) (b, j) e))
                (Kept-in_array m u q a k ∙ (view-some m a k (b, j) e).0))
              (λ v (r, t). (
                Kept-trans m u v q r,
                λ x.
                    t x
                    ∙ ap (λ o. if at (b, j) x then none else o) (d x)
                    ∙ or_swap (at (a, k) x) (at (b, j) x) (view m x),
              ))
      ])

-- The links without the one of a place, if it has one.
abbrev pub unlinked : (Place → Option Place) → Place → Place → Option Place
unlinked f x z = elim (f x) [ none ↦ f z | some y ↦ cut f x y z ]

-- The links with one between two places, if both were free.
abbrev pub linked : (Place → Option Place) → Place → Place → Place → Option Place
linked f x y z = elim (f x) [
  | none ↦ elim (f y) [ none ↦ join f x y z | some _ ↦ f z ]
  | some _ ↦ f z
]

-- The bridges stay, the links go both ways, and are these.
abbrev pub Links : Mngr → (Place → Option Place) → Mngr → Type 0
Links m f v = Kept m v × IsLinked v × ((x : Place) → view v x ≡ f x)

pub at_none :
    (o r : Option Place) (g : Place → Option Place)
    → o ≡ none
    → elim o [ none ↦ r | some y ↦ g y ] ≡ r
at_none none r g e = refl
at_none (some y) r g e = absurd (none-some (sym e))

pub at_some :
    (o : Option Place) (y : Place) (r : Option Place) (g : Place → Option Place)
    → o ≡ some y
    → elim o [ none ↦ r | some z ↦ g z ] ≡ g y
at_some none y r g e = absurd (none-some e)
at_some (some z) y r g e = ap g (some_eq e)

last_listed :
    (m : Mngr) (ps : List ℕ) (pid a : ℕ) (found : Option ℕ)
    → last_bridge m ps pid found ≡ some a
    → (found ≡ some a) ⊎ In a ps
unfolding last_bridge
last_listed m [] pid a found e = inl e
last_listed m (p ∷ ps) pid a found e =
    elim (last_listed m ps pid a (if (m.bridge p).pid == pid then some p else found) e) [
      | inl f ↦ elim (Bool-cases ((m.bridge p).pid == pid)) [
        | inl c ↦ inr (own p a ps (ap (λ b. if b then some p else found) (sym c) ∙ f))
        | inr c ↦ inl (ap (λ b. if b then some p else found) (sym c) ∙ f)
      ]
      | inr i ↦ inr (ground (arith, i))
    ]
  where
    own : (p a : ℕ) (ps : List ℕ) → some p ≡ some a → In a (p ∷ ps)
    own p a ps q = ground (arith, q)

pub listed : (m : Mngr) (pid a : ℕ) → last_bridge m m.br_lst pid none ≡ some a → In a m.br_lst
listed m pid a e = elim (last_listed m m.br_lst pid a none e) [
  | inl f ↦ absurd (no_number f)
  | inr i ↦ i
]
  where
    no_number : {n : ℕ} → none ≡ some n → ⊥
    no_number q = cc

pub valid_index :
    (m : Mngr) (a k : ℕ) → In a m.br_lst → k < (m.bridge a).number_of_ports → in_array m a k ≡ true
valid_index m a k h e = ground (arith, h, e)

pub not_invalid :
    (m : Mngr) (a k : ℕ) → k < 2 ^ 31 → k < (m.bridge a).number_of_ports → invalid m a k ≡ false
not_invalid m a k h e = ground (arith, h, e)
