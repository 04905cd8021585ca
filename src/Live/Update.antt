-- ===== src/Live/Update.antt =====
-- lacp_sys.c: `lacp_sys_update` in a system that is ready.
use lacp.Base.{
  ℕ, zero, suc, ◌*◌, ◌≤◌, ◌<◌, ◌≡◌, sym, ◌∙◌, subst, Bool, true, false, not, ◌&&◌, ◌==◌, ==_iff,
  Bool-cases, inl, inr, List, [], ◌∷◌, In, elem, length, arith,
}
use lacp.Types.{World}
use lacp.Statmch.{Machine, rx, sel, mux, tx}
use lacp.Sys.{all_machines, sys_update, update}
use lacp.Create.{unlink}
use lacp.Create.Table.{Nodup, elem-unlink, unlink-Nodup}
use lacp.Api.{port_max}
use lacp.Settle.Energy.{enough, base_of, energy, energy_bound}
use lacp.Settle.Loop.{SameCell, flag}
use lacp.Settle.Passes.{Quiet}
use lacp.Settle.Ends.{AtRest, update_loop-Ends}
use lacp.Settle.Clock.{update_returns}
use lacp.Live.{Returns, IsReady}

-- A list without repetitions, of numbers below a bound, is no longer than the bound.
length-unlink : (i : ℕ) (ps : List ℕ) → length ps ≤ suc (length (unlink i ps))
unfolding unlink
length-unlink i [] = omega arith
length-unlink i (p ∷ ps) = ground (arith, length-unlink i ps)

below_last : (n j : ℕ) (c : Bool) → (c ≡ true → j < suc n) → (c && not (n == j)) ≡ true → j < n
below_last n j c f e = ground (arith, f)

length-Nodup : (n : ℕ) (ps : List ℕ) → Nodup ps → ((j : ℕ) → In j ps → j < n) → length ps ≤ n
length-Nodup zero [] u h = omega arith
length-Nodup zero (p ∷ ps) u h = absurd (omega (arith, h p (ground arith)))
length-Nodup (suc n) ps u h =
    let k : length (unlink n ps) ≤ n =
      length-Nodup n (unlink n ps) (unlink-Nodup n ps u)
        (λ j e. below_last n j (elem j ps) (h j) (sym (elem-unlink n j ps u) ∙ e)) in
    omega (arith, length-unlink n ps, k)

mul_le : (a b c d : ℕ) → a ≤ c → b ≤ d → a * b ≤ c * d
mul_le a b c d h k = grind arith

enough-le : (n m : ℕ) → n ≤ m → enough n ≤ enough m
enough-le n m h =
    let b : base_of n ≤ base_of m = omega arith in
    mul_le _ _ _ _ (mul_le _ _ _ _ (mul_le _ _ _ _ b b) b) b

Quiet-intro :
    (w : World) (ps : List ℕ)
    → ((m : Machine) (j : ℕ) → In j ps → flag w m j ≡ false)
    → Quiet w (all_machines ps)
unfolding all_machines
Quiet-intro w [] h = tt
Quiet-intro w (p ∷ ps) h =
    let own : In p (p ∷ ps) = ground arith in
    (
      h rx p own,
      (
        h sel p own,
        (h mux p own, (h tx p own, Quiet-intro w ps (λ m j i. h m j (ground (arith, i))))),
      ),
    )

Quiet-elim :
    (w : World) (ps : List ℕ)
    → Quiet w (all_machines ps)
    → (m : Machine) (j : ℕ) → In j ps
    → flag w m j ≡ false
unfolding all_machines
Quiet-elim w [] q m j h = cc
Quiet-elim w (p ∷ ps) (a, (b, (c, (d, q)))) m j h = elim (Bool-cases (p == j)) [
  | inl e ↦ subst (λ x. flag w m x ≡ false) ((==_iff p j).0 e) (own m)
  | inr e ↦ Quiet-elim w ps q m j (ground (arith, h))
]
  where
    own : (m : Machine) → flag w m p ≡ false
    own rx = a
    own sel = b
    own mux = c
    own tx = d

rested :
    (w v : World)
    → IsReady w
    → AtRest w v
    → IsReady v × (v.sys ≡ w.sys) × ((j : ℕ) → SameCell w v j)
rested w v r a = (
  record {
    timed = a.timed;
    quiet = Quiet-elim v v.sys.ports a.quiet;
    once = subst (λ s. Nodup s.ports) (sym a.sys_kept) r.once;
    small = λ j h. r.small j (subst (λ s. In j s.ports) a.sys_kept h);
  },
  a.sys_kept,
  a.cells_kept,
)

-- `lacp_sys_update` returns in a ready system, and leaves it ready and its parameters as they were.
pub update-IsReady :
    (fuel : ℕ) (w : World)
    → enough port_max ≤ fuel
    → IsReady w
    → Returns (update fuel w) (λ v. IsReady v × (v.sys ≡ w.sys) × ((j : ℕ) → SameCell w v j))
unfolding sys_update
update-IsReady fuel w f r =
    let bound : energy w < fuel = omega (
      arith,
      energy_bound w,
      enough-le (length w.sys.ports) port_max (length-Nodup port_max w.sys.ports r.once r.small),
    ) in
    let (v, n, e, a) =
      update_loop-Ends fuel fuel w 0 r.timed (Quiet-intro w w.sys.ports r.quiet) bound bound in
    subst (λ o. Returns o (λ u. IsReady u × (u.sys ≡ w.sys) × ((j : ℕ) → SameCell w u j)))
      (sym (update_returns fuel n w v e)) (rested w v r a)
