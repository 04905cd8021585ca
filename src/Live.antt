-- ===== src/Live.antt =====
-- lacp_lib/LACP/lacp_api.c, trunk_api.c, trunk_cli.c and bridge.c: that the calls of the library, and
-- so the process of a bridge, return. The invariant of a system between two calls, and the rules for
-- calls that return.
pub mod Update
pub mod Calls
pub mod Config
pub mod Setup
pub mod Settings
pub mod Trunk
pub mod OnePort
pub mod Joined
pub mod Enable
pub mod Commands
pub mod Run
use lacp.Base.{
  ℕ, Bool, Option, none, some, if◌then◌else◌, ◌≡◌, refl, sym, ap, subst, ◌∙◌, ◌<◌, true, false,
  ◌==◌, In, arith, Bool-cases, ==_iff, inl, inr, update_self,
}
use lacp.Types.{Stub, World, Port, LacpSys, Outcome, returns, crashes, runs_out, ◌>>=◌, modify_port}
use lacp.Statmch.{Machine, rx, sel, mux, tx, change_state_of}
use lacp.Create.Table.{Nodup}
use lacp.Api.{port_max}
use lacp.Settle.Loop.{IsTimed, flag}

-- The call returns, with a result that has the property.
abbrev pub Returns : {A : Type 0} → Outcome A → (A → Type 0) → Type 0
Returns (returns a) P = P a
Returns crashes P = ⊥
Returns runs_out P = ⊥

pub Returns-bind :
    {A B : Type 0} (m : Outcome A) (f : A → Outcome B) (P : A → Type 0) (Q : B → Type 0)
    → Returns m P
    → ((a : A) → P a → Returns (f a) Q)
    → Returns (m >>= f) Q
Returns-bind (returns a) f P Q h k = k a h
Returns-bind crashes f P Q h k = absurd h
Returns-bind runs_out f P Q h k = absurd h

-- With the equation that says what was returned.
pub Returns-known :
    {A B : Type 0} (m : Outcome A) (f : A → Outcome B) (P : A → Type 0) (Q : B → Type 0)
    → Returns m P
    → ((a : A) → m ≡ returns a → P a → Returns (f a) Q)
    → Returns (m >>= f) Q
Returns-known (returns a) f P Q h k = k a refl h
Returns-known crashes f P Q h k = absurd h
Returns-known runs_out f P Q h k = absurd h

pub Returns-map :
    {A : Type 0} (m : Outcome A) (P Q : A → Type 0)
    → Returns m P
    → ((a : A) → P a → Q a)
    → Returns m Q
Returns-map (returns a) P Q h k = k a h
Returns-map crashes P Q h k = absurd h
Returns-map runs_out P Q h k = absurd h

pub Returns-if :
    {A : Type 0} (c : Bool) (m n : Outcome A) (P : A → Type 0)
    → (c ≡ true → Returns m P)
    → (c ≡ false → Returns n P)
    → Returns (if c then m else n) P
Returns-if true m n P h k = h refl
Returns-if false m n P h k = k refl

pub Returns-option :
    {A B : Type 0} (o : Option A) (m : Outcome B) (f : A → Outcome B) (P : B → Type 0)
    → (o ≡ none → Returns m P)
    → ((a : A) → o ≡ some a → Returns (f a) P)
    → Returns (elim o [ none ↦ m | some a ↦ f a ]) P
Returns-option none m f P h k = h refl
Returns-option (some a) m f P h k = k a refl

pub Returns-some :
    {A B : Type 0} (o : Option A) (a : A) (m : Outcome B) (f : A → Outcome B) (P : B → Type 0)
    → o ≡ some a
    → Returns (f a) P
    → Returns (elim o [ none ↦ m | some x ↦ f x ]) P
Returns-some none a m f P e h = cc
Returns-some (some x) a m f P e h = subst (λ y. Returns (f y) P) (some_eq (sym e)) h
  where
    some_eq : some a ≡ some x → a ≡ x
    some_eq q = cc

pub Returns-none :
    {A B : Type 0} (o : Option A) (m : Outcome B) (f : A → Outcome B) (P : B → Type 0)
    → o ≡ none
    → Returns m P
    → Returns (elim o [ none ↦ m | some x ↦ f x ]) P
Returns-none none m f P e h = h
Returns-none (some x) m f P e h = cc

pub Returns-then :
    {A : Type 0} (c : Bool) (m n : Outcome A) (P : A → Type 0)
    → c ≡ true
    → Returns m P
    → Returns (if c then m else n) P
Returns-then true m n P e h = h
Returns-then false m n P e h = cc

pub Returns-else :
    {A : Type 0} (c : Bool) (m n : Outcome A) (P : A → Type 0)
    → c ≡ false
    → Returns n P
    → Returns (if c then m else n) P
Returns-else true m n P e h = cc
Returns-else false m n P e h = h

-- A system between two calls of the library: its timeouts and periods are not 0, each port
-- structure with LACP on has an aggregation, no machine of a port is in the middle of a change,
-- and its ports are different and below `LACP_PORT_MAX`.
pub record IsReady (w : World) : Type 0 where
  pub timed : IsTimed w
  pub quiet : (m : Machine) (j : ℕ) → In j w.sys.ports → flag w m j ≡ false
  pub once : Nodup w.sys.ports
  pub small : (j : ℕ) → In j w.sys.ports → j < port_max

-- A change of a port that starts no machine, and keeps that LACP is on only with an aggregation.
pub record Mild (p q : Port) : Type 0 where
  pub flags : (m : Machine) → change_state_of m q ≡ change_state_of m p
  pub has_agg :
      (p.lacp_enabled ≡ true → (p.agg_id == 0) ≡ false)
      → q.lacp_enabled ≡ true
      → (q.agg_id == 0) ≡ false

-- The flags of the four machines, one by one.
pub same_flags :
    (p q : Port)
    → q.rx.change_state ≡ p.rx.change_state
    → q.sel.change_state ≡ p.sel.change_state
    → q.mux.change_state ≡ p.mux.change_state
    → q.tx.change_state ≡ p.tx.change_state
    → (m : Machine) → change_state_of m q ≡ change_state_of m p
same_flags p q a b c d rx = a
same_flags p q a b c d sel = b
same_flags p q a b c d mux = c
same_flags p q a b c d tx = d

pub Mild-refl : (p : Port) → Mild p p
Mild-refl p = record { flags = λ m. refl; has_agg = λ h. h }

pub Mild-trans : (p q r : Port) → Mild p q → Mild q r → Mild p r
Mild-trans p q r a b = record {
  flags = λ m. b.flags m ∙ a.flags m;
  has_agg = λ h. b.has_agg (a.has_agg h);
}

-- What of the system a call may leave otherwise than it was.
pub record MildSys (s t : LacpSys) : Type 0 where
  pub ports : t.ports ≡ s.ports
  pub short_timeout : t.short_timeout_time ≡ s.short_timeout_time
  pub long_timeout : t.long_timeout_time ≡ s.long_timeout_time
  pub slow_period : 0 < s.slow_periodic_time → 0 < t.slow_periodic_time
  pub fast_period : 0 < s.fast_periodic_time → 0 < t.fast_periodic_time

pub MildSys-refl : (s : LacpSys) → MildSys s s
MildSys-refl s = record {
  ports = refl;
  short_timeout = refl;
  long_timeout = refl;
  slow_period = λ h. h;
  fast_period = λ h. h;
}

pub MildSys-eq : (s t : LacpSys) → t ≡ s → MildSys s t
MildSys-eq s t e = subst (MildSys s) (sym e) (MildSys-refl s)

pub mild-IsReady :
    (w v : World)
    → MildSys w.sys v.sys
    → ((j : ℕ) → Mild (w.cell j) (v.cell j))
    → IsReady w
    → IsReady v
mild-IsReady w v s c r = record {
  timed = record {
    short_timeout = subst (λ n. 0 < n) (sym s.short_timeout) r.timed.short_timeout;
    long_timeout = subst (λ n. 0 < n) (sym s.long_timeout) r.timed.long_timeout;
    slow_period = s.slow_period r.timed.slow_period;
    fast_period = s.fast_period r.timed.fast_period;
    has_agg = λ j. (c j).has_agg (r.timed.has_agg j);
  };
  quiet = λ m j h. (c j).flags m ∙ r.quiet m j (subst (In j) s.ports h);
  once = subst Nodup (sym s.ports) r.once;
  small = λ j h. r.small j (subst (In j) s.ports h);
}

pub modify-Mild :
    (w : World) (i : ℕ) (f : Port → Port)
    → Mild (w.cell i) (f (w.cell i))
    → (j : ℕ) → Mild (w.cell j) ((modify_port w i f).cell j)
modify-Mild w i f h j = elim (Bool-cases (i == j)) [
  | inl e ↦
      subst (λ x. Mild (w.cell x) ((modify_port w i f).cell x)) ((==_iff i j).0 e)
        (subst (Mild (w.cell i)) (sym (update_self w.cell i (f (w.cell i)))) h)
  | inr e ↦ rw e (Mild-refl (w.cell j))
]

pub modify-IsReady :
    (w : World) (i : ℕ) (f : Port → Port)
    → Mild (w.cell i) (f (w.cell i))
    → IsReady w
    → IsReady (modify_port w i f)
modify-IsReady w i f h =
    mild-IsReady w (modify_port w i f) (MildSys-refl w.sys) (modify-Mild w i f h)

pub if-IsReady :
    (c : Bool) (u v : World)
    → (c ≡ true → IsReady u)
    → (c ≡ false → IsReady v)
    → IsReady (if c then u else v)
if-IsReady true u v h k = h refl
if-IsReady false u v h k = k refl

-- The switch does not matter to a ready system.
pub restub-IsReady : (w : World) (s : Stub) → IsReady w → IsReady (record w { stub = s })
restub-IsReady w s r = record {
  timed = record {
    short_timeout = r.timed.short_timeout;
    long_timeout = r.timed.long_timeout;
    slow_period = r.timed.slow_period;
    fast_period = r.timed.fast_period;
    has_agg = r.timed.has_agg;
  };
  quiet = r.quiet;
  once = r.once;
  small = r.small;
}
