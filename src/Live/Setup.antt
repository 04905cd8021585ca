-- ===== src/Live/Setup.antt =====
-- lacp_api.c: ports created and removed in a system that is ready.
use lacp.Base.{
  ℕ, ◌≤◌, ◌<◌, ◌≡◌, refl, subst, Bool, true, false, ◌==◌, ==_iff, Bool-cases, inl, inr,
  if◌then◌else◌, ◌∷◌, In, elem, arith, update,
}
use lacp.Types.{World, Port, Bitmap}
use lacp.Statmch.{Machine, rx, sel, mux, tx, change_state_of}
use lacp.Create.{port_find}
use lacp.Settle.Energy.{enough}
use lacp.Create.{port_create, port_delete, new_port, port_init, unlink}
use lacp.Create.Table.{elem-unlink, unlink-Nodup}
use lacp.Api.{port_max, for_ports, in_bitmap, create_port, create_ports, remove_port, remove_ports}
use lacp.Live.{Returns, Returns-bind, Returns-if, Returns-option, IsReady, Mild-refl, mild-IsReady}
use lacp.Live.Calls.{updated}
use lacp.Live.Config.{for_ports-Returns}

new_flags :
    (w : World) (i : ℕ) (m : Machine) → change_state_of m (port_init w.sys (new_port w i)) ≡ false
unfolding port_init new_port
new_flags w i rx = refl
new_flags w i sel = refl
new_flags w i mux = refl
new_flags w i tx = refl

new_off : (w : World) (i : ℕ) → (port_init w.sys (new_port w i)).lacp_enabled ≡ false
unfolding port_init new_port
new_off w i = refl

created_agg :
    (p q : Port) (c : Bool)
    → p.lacp_enabled ≡ false
    → (q.lacp_enabled ≡ true → (q.agg_id == 0) ≡ false)
    → (if c then p else q).lacp_enabled ≡ true
    → ((if c then p else q).agg_id == 0) ≡ false
created_agg p q true h k e = cc
created_agg p q false h k e = k e

created_flags :
    (w : World) (i : ℕ) (m : Machine) (j : ℕ)
    → ((i == j) ≡ false → change_state_of m (w.cell j) ≡ false)
    → change_state_of m (update w.cell i (port_init w.sys (new_port w i)) j) ≡ false
created_flags w i m j f = elim (Bool-cases (i == j)) [
  | inl h ↦ rw h (new_flags w i m)
  | inr h ↦ rw h (f h)
]

-- A port that is created.
created-IsReady :
    (w : World) (i : ℕ)
    → i < port_max
    → elem i w.sys.ports ≡ false
    → IsReady w
    → IsReady (record w {
      sys = record (w.sys) { ports = i ∷ w.sys.ports };
      cell = update w.cell i (port_init w.sys (new_port w i));
    })
created-IsReady w i b e r = record {
  timed = record {
    short_timeout = r.timed.short_timeout;
    long_timeout = r.timed.long_timeout;
    slow_period = r.timed.slow_period;
    fast_period = r.timed.fast_period;
    has_agg = λ j.
        created_agg (port_init w.sys (new_port w i)) (w.cell j) (i == j) (new_off w i)
          (r.timed.has_agg j);
  };
  quiet = λ m j h. created_flags w i m j (λ d. r.quiet m j (other j h d));
  once = (e, r.once);
  small = λ j h. elim (Bool-cases (i == j)) [
    | inl d ↦ subst (λ x. x < port_max) ((==_iff i j).0 d) b
    | inr d ↦ r.small j (other j h d)
  ];
}
  where
    other : (j : ℕ) → In j (i ∷ w.sys.ports) → (i == j) ≡ false → In j w.sys.ports
    other j h d = ground (arith, h, d)

removed-IsReady :
    (w : World) (i : ℕ)
    → IsReady w
    → IsReady (record w { sys = record (w.sys) { ports = unlink i w.sys.ports } })
removed-IsReady w i r = record {
  timed = record {
    short_timeout = r.timed.short_timeout;
    long_timeout = r.timed.long_timeout;
    slow_period = r.timed.slow_period;
    fast_period = r.timed.fast_period;
    has_agg = r.timed.has_agg;
  };
  quiet = λ m j h. r.quiet m j (stays j h);
  once = unlink-Nodup i w.sys.ports r.once;
  small = λ j h. r.small j (stays j h);
}
  where
    stays : (j : ℕ) → In j (unlink i w.sys.ports) → In j w.sys.ports
    stays j h = let e = elem-unlink i j w.sys.ports r.once in ground arith

-- The count of the ports and their bitmap do not matter to a ready system.
counted-IsReady :
    (w : World) (n : ℕ) (m : Bitmap)
    → IsReady w
    → IsReady (record w { sys = record (w.sys) { number_of_ports = n; portmap = m } })
counted-IsReady w n m =
    mild-IsReady w _
      (record {
        ports = refl;
        short_timeout = refl;
        long_timeout = refl;
        slow_period = λ h. h;
        fast_period = λ h. h;
      })
      (λ j. Mild-refl (w.cell j))

pub create_port-IsReady :
    (ports : Bitmap) (w : World) (i : ℕ)
    → i < port_max
    → IsReady w
    → Returns (create_port ports w i) IsReady
unfolding create_port port_create
create_port-IsReady ports w i b r =
    Returns-if (in_bitmap ports i) _ _ IsReady
      (λ c. elim (Bool-cases (elem i w.sys.ports)) [
        | inl h ↦ rw h r
        | inr h ↦ rw h (counted-IsReady _ _ _ (created-IsReady w i b h r))
      ])
      (λ c. r)

-- `lacp_create_ports`.
pub create_ports-IsReady :
    (fuel : ℕ) (ports : Bitmap) (w : World)
    → enough port_max ≤ fuel
    → IsReady w
    → Returns (create_ports fuel ports w) IsReady
unfolding create_ports
create_ports-IsReady fuel ports w f r =
    Returns-bind (for_ports (create_port ports) port_max 0 w) _ IsReady IsReady
      (for_ports-Returns (create_port ports) IsReady port_max
        (λ v k b. create_port-IsReady ports v k b) port_max 0 w (omega arith) r)
      (λ v k. updated fuel v f k)

remove_port-IsReady :
    (ports : Bitmap) (w : World) (i : ℕ) → IsReady w → Returns (remove_port ports w i) IsReady
unfolding remove_port port_delete
remove_port-IsReady ports w i r =
    Returns-if (in_bitmap ports i) _ _ IsReady
      (λ c.
        Returns-option (port_find w i) _ _ IsReady (λ h. r)
          (λ p h. counted-IsReady _ _ _ (removed-IsReady w p r)))
      (λ c. r)

-- `lacp_remove_ports`.
pub remove_ports-IsReady :
    (ports : Bitmap) (w : World) → IsReady w → Returns (remove_ports ports w) IsReady
unfolding remove_ports
remove_ports-IsReady ports w r =
    for_ports-Returns (remove_port ports) IsReady port_max (λ v k _. remove_port-IsReady ports v k)
      port_max 0 w (omega arith) r
