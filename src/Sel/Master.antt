-- ===== src/Sel/Master.antt =====
-- lacp_sel.c: the choice of the master port of an aggregation.
use lacp.Base.{
  ℕ, ◌≡◌, refl, sym, subst, ◌⊎◌, inl, inr, true, false, not, ◌==◌, Bool-cases, ==_iff,
  if◌then◌else◌, Option, none, some, List, [], ◌∷◌, arith, In, ◌<◌,
}
use lacp.Types.{Port, World}
use lacp.Sel.{choose, better, is_candidate, best_port, select_master_port}

-- What replaces the best so far is not beaten by what did not beat it.
better_trans : (x best y : Port) → better x best ≡ true → better y best ≡ false → better y x ≡ false
unfolding better
better_trans x best y h k = ground arith

better_irrefl : (x : Port) → better x x ≡ false
unfolding better
better_irrefl x = ground arith

-- The port `y` does not beat the one that the pointer holds.
abbrev pub Unbeaten : (ℕ → Port) → ℕ → Option ℕ → Type 0
Unbeaten cell y none = ⊥
Unbeaten cell y (some b) = better (cell y) (cell b) ≡ false

-- One round of the loop.
abbrev next_best : (ℕ → Port) → ℕ → ℕ → Option ℕ → Option ℕ
next_best cell agg_id p best =
    if not (is_candidate agg_id (cell p)) then best else choose cell p best

next_best-keeps :
    (cell : ℕ → Port) (agg_id p y : ℕ) (best : Option ℕ)
    → Unbeaten cell y best
    → Unbeaten cell y (next_best cell agg_id p best)
next_best-keeps cell agg_id p y none h = absurd h
next_best-keeps cell agg_id p y (some b) h = ground (arith, better_trans (cell p) (cell b) (cell y))

next_best-covers :
    (cell : ℕ → Port) (agg_id p : ℕ) (best : Option ℕ)
    → is_candidate agg_id (cell p) ≡ true
    → Unbeaten cell p (next_best cell agg_id p best)
next_best-covers cell agg_id p none h = rw h (better_irrefl (cell p))
next_best-covers cell agg_id p (some b) h = ground (arith, better_irrefl (cell p))

next_best-from :
    (cell : ℕ → Port) (agg_id p b : ℕ) (best : Option ℕ)
    → next_best cell agg_id p best ≡ some b
    → (best ≡ some b) ⊎ ((b ≡ p) × (is_candidate agg_id (cell b) ≡ true))
next_best-from cell agg_id p b none h = ground arith
next_best-from cell agg_id p b (some c) h = ground arith

best_port-keeps :
    (cell : ℕ → Port) (agg_id y : ℕ) (ps : List ℕ) (best : Option ℕ)
    → Unbeaten cell y best
    → Unbeaten cell y (best_port cell agg_id ps best)
unfolding best_port
best_port-keeps cell agg_id y [] best h = h
best_port-keeps cell agg_id y (p ∷ ps) best h =
    best_port-keeps cell agg_id y ps (next_best cell agg_id p best)
      (next_best-keeps cell agg_id p y best h)

best_port-covers :
    (cell : ℕ → Port) (agg_id y : ℕ) (ps : List ℕ) (best : Option ℕ)
    → In y ps
    → is_candidate agg_id (cell y) ≡ true
    → Unbeaten cell y (best_port cell agg_id ps best)
unfolding best_port
best_port-covers cell agg_id y [] best i c = cc
best_port-covers cell agg_id y (p ∷ ps) best i c = elim (Bool-cases (p == y)) [
  | inl e ↦ best_port-keeps cell agg_id y ps (next_best cell agg_id p best) (
      subst (λ q. Unbeaten cell y (next_best cell agg_id q best)) (sym ((==_iff p y).0 e))
        (next_best-covers cell agg_id y best c))
  | inr e ↦ best_port-covers cell agg_id y ps (next_best cell agg_id p best) (ground arith) c
]

best_port-from :
    (cell : ℕ → Port) (agg_id b : ℕ) (ps : List ℕ) (best : Option ℕ)
    → best_port cell agg_id ps best ≡ some b
    → (best ≡ some b) ⊎ (In b ps × (is_candidate agg_id (cell b) ≡ true))
unfolding best_port
best_port-from cell agg_id b [] best h = inl h
best_port-from cell agg_id b (p ∷ ps) best h =
    elim (best_port-from cell agg_id b ps (next_best cell agg_id p best) h) [
      | inl e ↦ elim (next_best-from cell agg_id p b best e) [
        | inl was ↦ inl was
        | inr is ↦ inr (ground arith, is.1)
      ]
      | inr r ↦ inr (ground arith, r.1)
    ]

-- The order of master ports, without the chain of tests: a faster port beats a slower one, then a
-- smaller priority number, then information received against defaulted, then a smaller number.
abbrev pub Beats : Port → Port → Type 0
Beats p b =
    (b.speed < p.speed)
    ⊎ ((p.speed ≡ b.speed)
        × ((p.actor.port_priority < b.actor.port_priority)
            ⊎ ((p.actor.port_priority ≡ b.actor.port_priority)
                × (((p.actor.state.defaulted ≡ false) × (b.actor.state.defaulted ≡ true))
                    ⊎ ((p.actor.state.defaulted ≡ b.actor.state.defaulted)
                        × (p.actor.port_no < b.actor.port_no))))))

not-Beats : (p b : Port) → better p b ≡ false → ¬ Beats p b
unfolding better
not-Beats p b h = λ (x : Beats p b). ground arith

-- What the pointer `best` must be for the ports `ps` of a system: no candidate at all, or a
-- candidate among them that no candidate beats.
abbrev pub IsBest : (ℕ → Port) → ℕ → List ℕ → Option ℕ → Type 0
IsBest cell agg_id ps none = (p : ℕ) → In p ps → is_candidate agg_id (cell p) ≡ false
IsBest cell agg_id ps (some b) =
    In b ps
    × (is_candidate agg_id (cell b) ≡ true)
    × ((p : ℕ) → In p ps → is_candidate agg_id (cell p) ≡ true → ¬ Beats (cell p) (cell b))

none-Unbeaten :
    (cell : ℕ → Port) (agg_id p : ℕ)
    → (is_candidate agg_id (cell p) ≡ true → Unbeaten cell p none)
    → is_candidate agg_id (cell p) ≡ false
none-Unbeaten cell agg_id p h = elim (Bool-cases (is_candidate agg_id (cell p))) [
  | inl e ↦ absurd (h e)
  | inr e ↦ e
]

IsBest-intro :
    (cell : ℕ → Port) (agg_id : ℕ) (ps : List ℕ) (r : Option ℕ)
    → ((p : ℕ) → In p ps → is_candidate agg_id (cell p) ≡ true → Unbeaten cell p r)
    → ((b : ℕ) → r ≡ some b → In b ps × (is_candidate agg_id (cell b) ≡ true))
    → IsBest cell agg_id ps r
IsBest-intro cell agg_id ps none covers from = λ p i. none-Unbeaten cell agg_id p (covers p i)
IsBest-intro cell agg_id ps (some b) covers from =
    ((from b refl).0, (from b refl).1, λ p i c. not-Beats (cell p) (cell b) (covers p i c))

none_or : (b : ℕ) {P : Type 0} → (◌≡◌ {A = Option ℕ} none (some b)) ⊎ P → P
none_or b (inl e) = cc
none_or b (inr p) = p

-- The master port that `select_master_port` returns is, over the ports with their keys read anew,
-- a candidate of the aggregation (enabled, with LACP on, and full duplex) that no other candidate
-- beats by speed, priority, defaulted state and port number; it is null only if there is none.
pub select_master_port-IsBest :
    (w : World) (agg_id : ℕ)
    → IsBest
        (select_master_port w agg_id).0.cell
        agg_id
        (select_master_port w agg_id).0.sys.ports
        (select_master_port w agg_id).1
unfolding select_master_port
select_master_port-IsBest w agg_id =
    let v = (select_master_port w agg_id).0 in
    IsBest-intro v.cell agg_id v.sys.ports (select_master_port w agg_id).1
      (λ p. best_port-covers v.cell agg_id p v.sys.ports none)
      (λ b e. none_or b (best_port-from v.cell agg_id b v.sys.ports none e))
