-- ===== src/Mngr/Run.antt =====
-- mngr.c: the main loop of the manager.
use lacp.Base.{
  ℕ, ◌^◌, ◌<◌, ◌≡◌, ◌≢◌, refl, sym, ap, ◌∙◌, subst, Bool, true, false, ◌&&◌, ◌||◌, ltb, Bool-cases,
  Option-cases, inl, inr, if◌then◌else◌, Option, none, some, List, [], ◌∷◌, elem, arith,
}
use lacp.Types.{LacpPdu, Outcome, returns, crashes, runs_out, ◌>>=◌}
use lacp.Mngr.{
  Mngr, Peer, PeerPort, Packet, read_port, send, find_bridge, last_bridge, invalid, link_bridges,
  unlink_port, unregister_bridge, mngr_rx_bpdu, handshake, bridge_shutdown, unexpected, frame,
  unknown, read_uid, Input, message, link, unlink_one, ring, step, main_loop, no_bridges,
}
use lacp.Mngr.Matching.{clash}
use lacp.Mngr.Ports.{view, view-some, read-Returns, send-Returns, in_list}
use lacp.Mngr.Linked.{IsLinked, partner_in, valid_index}
use lacp.Mngr.Commands.{link_bridges-linked, unlink_port-unlinked}
use lacp.Mngr.Fewer.{found_listed}
use lacp.Mngr.Bridges.{register_bridge-IsLinked, unregister_bridge-Links}
use lacp.Live.{
  Returns, Returns-bind, Returns-known, Returns-map, Returns-some, Returns-none, Returns-then,
  Returns-option,
}
use lacp.Mngr.Writes.{view-none}

-- The inputs whose indices name ports, or that are refused: the frames come from ports that their
-- bridge has, no command gives as an index the number of ports of its bridge, the bridge whose port
-- is unlinked is registered, and there is no "ring".
abbrev pub IsFine : Mngr → Input → Type 0
IsFine m (message pid (frame k pdu)) =
    (a : ℕ) → find_bridge m m.br_lst pid ≡ some a → k < (m.bridge a).number_of_ports
IsFine m (message pid _) = Unit
IsFine m (link pid1 k pid2 j) =
    ((a : ℕ) → last_bridge m m.br_lst pid1 none ≡ some a → k ≢ (m.bridge a).number_of_ports)
    × ((b : ℕ) → last_bridge m m.br_lst pid2 none ≡ some b → j ≢ (m.bridge b).number_of_ports)
IsFine m (unlink_one pid k) =
    (a : ℕ) × (last_bridge m m.br_lst pid none ≡ some a) × (k ≢ (m.bridge a).number_of_ports)
IsFine m ring = ⊥

-- The call, if it returns, returns what has the property.
abbrev pub After : Outcome Mngr → (Mngr → Type 0) → Type 0
After (returns m) P = P m
After crashes P = Unit
After runs_out P = Unit

abbrev pub AreFine : List Input → Mngr → Type 0
AreFine [] m = Unit
AreFine (i ∷ is) m = IsFine m i × After (step i m) (AreFine is)

valid_or_not :
    (m : Mngr) (a k : ℕ)
    → k ≢ (m.bridge a).number_of_ports
    → invalid m a k ≡ false
    → (k < 2 ^ 31) × (k < (m.bridge a).number_of_ports)
valid_or_not m a k n h = (ground (arith, n, h), ground (arith, n, h))

unlink-IsLinked :
    (m : Mngr) (pid k : ℕ)
    → IsFine m (unlink_one pid k)
    → IsLinked m
    → Returns (unlink_port pid k m) IsLinked
unfolding unlink_port
unlink-IsLinked m pid k (a, e, n) l = elim (Bool-cases (invalid m a k)) [
  | inl c ↦
      Returns-some (last_bridge m m.br_lst pid none) a _ _ _ e
        (Returns-then (invalid m a k) _ _ _ c l)
  | inr c ↦
      let (b, h) = valid_or_not m a k n c in
      Returns-map (unlink_port pid k m) _ _ (unlink_port-unlinked m pid a k l e h b) (λ v t. t.1)
]

link-IsLinked :
    (m : Mngr) (pid1 k pid2 j : ℕ)
    → IsFine m (link pid1 k pid2 j)
    → IsLinked m
    → Returns (link_bridges pid1 k pid2 j m) IsLinked
unfolding link_bridges
link-IsLinked m pid1 k pid2 j (f, g) l = elim (Option-cases (last_bridge m m.br_lst pid1 none)) [
  | inl e ↦ Returns-none (last_bridge m m.br_lst pid1 none) _ _ _ e l
  | inr (a, e) ↦ elim (Option-cases (last_bridge m m.br_lst pid2 none)) [
    | inl d ↦
        Returns-some (last_bridge m m.br_lst pid1 none) a _ _ _ e
          (Returns-none (last_bridge m m.br_lst pid2 none) _ _ _ d l)
    | inr (b, d) ↦ elim (Bool-cases (invalid m a k || invalid m b j)) [
      | inl c ↦ Returns-some (last_bridge m m.br_lst pid1 none) a _ _ _ e (
          Returns-some (last_bridge m m.br_lst pid2 none) b _ _ _ d
            (Returns-then (invalid m a k || invalid m b j) _ _ _ c l))
      | inr c ↦
          let (x, y) = neither (invalid m a k) (invalid m b j) c in
          let (p, h) = valid_or_not m a k (f a e) x in
          let (q, i) = valid_or_not m b j (g b d) y in
          Returns-map (link_bridges pid1 k pid2 j m) _ _
            (link_bridges-linked m pid1 a k pid2 b j l e d h i p q) (λ v t. t.1)
    ]
  ]
]
  where
    neither : (x y : Bool) → (x || y) ≡ false → (x ≡ false) × (y ≡ false)
    neither true y h = absurd (clash refl h)
    neither false y h = (refl, h)

sent-IsLinked : (m : Mngr) (l : List (ℕ × Packet)) → IsLinked m → IsLinked (record m { sent = l })
sent-IsLinked m l r = record { once = r.once; below = r.below; matched = r.matched }

frame-IsLinked :
    (m : Mngr) (pid k : ℕ) (pdu : LacpPdu)
    → IsFine m (message pid (frame k pdu))
    → IsLinked m
    → Returns (mngr_rx_bpdu pid k pdu m) IsLinked
unfolding mngr_rx_bpdu
frame-IsLinked m pid k pdu f l =
    Returns-option (find_bridge m m.br_lst pid) _ _ _ (λ _. l)
      (λ a e.
        let i = valid_index m a k (found_listed m m.br_lst pid a e) (f a e) in
        Returns-bind (read_port m a k) _ _ _ (read-Returns m a k i) (λ p r.
          elim (Option-cases (view m (a, k))) [
            | inl n ↦ Returns-none p.bridge_partner _ _ _ (view-none m a k p i n r) l
            | inr (y, s) ↦
                Returns-some p.bridge_partner y.0 _ _ _
                  (ap (λ z. z.bridge_partner) (r ∙ (view-some m a k y s).1))
                  (Returns-map (send y.0 _ m) _ _
                    (send-Returns m y.0 _
                      (in_list m y.0 y.1 (partner_in m a k y.0 y.1 l.matched s)))
                    (λ v q. subst IsLinked (sym q) (sent-IsLinked m _ l)))
          ]))

unregister-IsLinked : (m : Mngr) (pid : ℕ) → IsLinked m → Returns (unregister_bridge pid m) IsLinked
unfolding unregister_bridge
unregister-IsLinked m pid l = elim (Option-cases (find_bridge m m.br_lst pid)) [
  | inl e ↦ Returns-none (find_bridge m m.br_lst pid) _ _ _ e l
  | inr (br, e) ↦
      Returns-map (unregister_bridge pid m) _ _ (unregister_bridge-Links m pid br l e) (λ v t. t.0)
]

step-IsLinked : (i : Input) (m : Mngr) → IsFine m i → IsLinked m → Returns (step i m) IsLinked
unfolding step read_uid
step-IsLinked (message pid (handshake count sock)) m f l =
    register_bridge-IsLinked m pid count sock l
step-IsLinked (message pid bridge_shutdown) m f l = unregister-IsLinked m pid l
step-IsLinked (message pid unexpected) m f l = l
step-IsLinked (message pid (frame k pdu)) m f l = frame-IsLinked m pid k pdu f l
step-IsLinked (message pid unknown) m f l = l
step-IsLinked (link pid1 k pid2 j) m f l = link-IsLinked m pid1 k pid2 j f l
step-IsLinked (unlink_one pid k) m f l = unlink-IsLinked m pid k f l
step-IsLinked ring m f l = absurd f

run-IsLinked :
    (is : List Input) (m : Mngr) → AreFine is m → IsLinked m → Returns (main_loop is m) IsLinked
unfolding main_loop
run-IsLinked [] m f l = l
run-IsLinked (i ∷ is) m (f, g) l =
    Returns-known (step i m) (main_loop is) IsLinked IsLinked (step-IsLinked i m f l)
      (λ v e k. run-IsLinked is v (subst (λ o. After o (AreFine is)) e g) k)

-- From its start, the manager handles every list of inputs that are fine and returns: it follows no
-- pointer that is null, not set or no longer allocated and leaves no array, and at the end the
-- bridges are different, below the next address, and each link goes both ways. An input is fine
-- where it comes if it is not "ring", a frame comes from a port that its bridge has, no command
-- gives as an index the number of ports of its bridge, and the bridge of an "unlink" is registered.
pub main_loop-IsLinked :
    (memory : ℕ → Peer) (is : List Input)
    → AreFine is (no_bridges memory)
    → Returns (main_loop is (no_bridges memory)) IsLinked
main_loop-IsLinked memory is f =
    run-IsLinked is (no_bridges memory) f
      (record { once = tt; below = λ a i. cc; matched = λ x y e. cc })

some_is :
    {R : Type 0} (o : Option ℕ) (a : ℕ) (r : R) (f : ℕ → R)
    → o ≡ some a
    → elim o [ none ↦ r | some x ↦ f x ] ≡ f a
some_is none a r f e = cc
some_is (some x) a r f e = cc

else_is : {R : Type 0} (c : Bool) (r s : R) → c ≡ false → (if c then r else s) ≡ s
else_is true r s e = cc
else_is false r s e = refl

not_refused :
    (m : Mngr) (a : ℕ)
    → (m.bridge a).number_of_ports < 2 ^ 31
    → invalid m a (m.bridge a).number_of_ports ≡ false
not_refused m a h = ground (arith, h)

read_past :
    (m : Mngr) (a : ℕ) (go : PeerPort → Outcome Mngr)
    → (read_port m a (m.bridge a).number_of_ports >>= go) ≡ crashes
read_past m a go =
    ap
      (λ c.
        (if c then returns ((m.bridge a).ports (m.bridge a).number_of_ports) else crashes) >>= go)
      (past (elem a m.br_lst))
  where
    past : (c : Bool) → (c && ltb (m.bridge a).number_of_ports (m.bridge a).number_of_ports) ≡ false
    past c = ground arith

-- For two registered bridges, each the last of the list with its pid, the first with fewer than
-- 2^31 ports: with its number of ports as the index, `unlink_port` leaves the array of its ports,
-- and so does `link_bridges` if the index for the second bridge is not refused.
pub link_bridges-past_end :
    (m : Mngr) (pid1 a pid2 b j : ℕ)
    → last_bridge m m.br_lst pid1 none ≡ some a
    → last_bridge m m.br_lst pid2 none ≡ some b
    → (m.bridge a).number_of_ports < 2 ^ 31
    → invalid m b j ≡ false
    → (unlink_port pid1 (m.bridge a).number_of_ports m ≡ crashes)
      × (link_bridges pid1 (m.bridge a).number_of_ports pid2 j m ≡ crashes)
unfolding unlink_port link_bridges
link_bridges-past_end m pid1 a pid2 b j e d h i =
    let n = (m.bridge a).number_of_ports in
    let own = not_refused m a h in
    (
      some_is (last_bridge m m.br_lst pid1 none) a _ _ e
          ∙ else_is (invalid m a n) _ _ own
          ∙ read_past m a _,
      some_is (last_bridge m m.br_lst pid1 none) a _ _ e
          ∙ some_is (last_bridge m m.br_lst pid2 none) b _ _ d
          ∙ else_is (invalid m a n || invalid m b j) _ _ (ap (λ c. c || invalid m b j) own ∙ i)
          ∙ read_past m a _,
    )
