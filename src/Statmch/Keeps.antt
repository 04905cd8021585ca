-- ===== src/Statmch/Keeps.antt =====
-- lacp_statmch.c: invariants of the loop of `lacp_change_state`.
use lacp.Base.{
  ℕ, zero, suc, ◌+◌, ◌≡◌, refl, subst, sym, ◌∙◌, true, Bool-cases, inl, inr, Option, some,
}
use lacp.Types.{World}
use lacp.Statmch.{Machine, change_state_of, change_state, round}

returned :
    (w v : World) (loops n : ℕ)
    → ◌≡◌ {A = Option (World × ℕ)} (some (w, loops)) (some (v, n))
    → w ≡ v
returned w v loops n e = cc

pub change_state-keeps :
    (m : Machine) (i : ℕ) (P : World → Type 0)
    → ((w : World) → change_state_of m (w.cell i) ≡ true → P w → P (round m w i))
    → (fuel : ℕ) (w v : World) (loops n : ℕ) → P w
    → change_state fuel m w i loops ≡ some (v, n)
    → P v
unfolding change_state
change_state-keeps m i P step zero w v loops n h e = cc
change_state-keeps m i P step (suc fuel) w v loops n h e =
    elim (Bool-cases (change_state_of m (w.cell i))) [
      | inl up ↦
          change_state-keeps m i P step fuel (round m w i) v (loops + 1) n (step w up h)
            (sym (rw (up, change_state) refl) ∙ e)
      | inr down ↦ subst P (returned w v loops n (sym (rw (down, change_state) refl) ∙ e)) h
    ]
