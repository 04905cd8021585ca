-- ===== src/Report/Filled.antt =====
-- lacp_api.c: the loop of the report on an aggregation, when every master port exists.
use lacp.Base.{
  ℕ, zero, suc, ◌+◌, ◌≡◌, refl, sym, ap, ◌∙◌, Bool, true, false, not, ◌&&◌, ◌==◌, leb,
  if◌then◌else◌, List, [], ◌∷◌, ◌++◌, map, take, replicate, length, set, get_or, arith,
}
use lacp.Types.{Port}
use lacp.Query.{PortState}
use lacp.Trunk.{zero_port_state}

-- The ports of an aggregation, in the order of the list.
abbrev pub members : (ℕ → Port) → ℕ → List ℕ → List ℕ
members cell agg_id [] = []
members cell agg_id (p ∷ ps) =
    if (cell p).agg_id == agg_id then p ∷ members cell agg_id ps else members cell agg_id ps

-- A list cut or filled up to a length.
abbrev pub pad {ℓ} : {A : Type ℓ} → A → ℕ → List A → List A
pad a zero xs = []
pad a (suc n) [] = a ∷ pad a n []
pad a (suc n) (x ∷ xs) = x ∷ pad a n xs

-- Whether the port is selected, off standby, and its own master.
abbrev pub leads : ℕ → Port → Bool
leads i p = p.selected && not p.standby && p.master_port == i

-- The position, counted from `pos`, of the last port that leads; `other` if there is none.
abbrev pub last_master : (ℕ → Port) → List ℕ → ℕ → ℕ → ℕ
last_master cell [] pos other = other
last_master cell (p ∷ ps) pos other =
    last_master cell ps (pos + 1) (if leads p (cell p) then pos else other)

-- What the library writes to an entry, when the master port exists.
abbrev pub copied : PortState → ℕ → Port → PortState
copied s i p = record {
  valid = true;
  port_index = i;
  key = s.key;
  agg_id = p.agg_id;
  master_port = p.master_port;
  sel_state = p.selected && not p.standby;
  rx_cnt = p.rx_lacpdu_cnt;
  tx_cnt = p.tx_lacpdu_cnt;
  actor = p.actor;
  partner = p.partner;
}

abbrev pub lacp_entry : (ℕ → Port) → ℕ → PortState
lacp_entry cell p = copied zero_port_state p (cell p)

-- The loop, when all master ports exist.
unfoldable pub filled_ports : (ℕ → Port) → ℕ → List ℕ → ℕ → List PortState → ℕ → List PortState × ℕ
filled_ports cell agg_id [] cnt array master = (array, master)
filled_ports cell agg_id (p ∷ ps) cnt array master = elim ((cell p).agg_id == agg_id) [
  | false ↦ filled_ports cell agg_id ps cnt array master
  | true ↦ elim (leb 8 cnt) [
    | true ↦ (array, master)
    | false ↦
        filled_ports cell agg_id ps (cnt + 1)
          (set array cnt (copied (get_or array cnt zero_port_state) p (cell p)))
          (if leads p (cell p) then cnt else master)
  ]
]

set_next :
    (done rest : List PortState) (x y : PortState)
    → set (done ++ y ∷ rest) (length done) x ≡ done ++ x ∷ rest
set_next [] rest x y = refl
set_next (d ∷ done) rest x y = ap (λ l. d ∷ l) (set_next done rest x y)

get_next :
    (done rest : List PortState) (y b : PortState) → get_or (done ++ y ∷ rest) (length done) b ≡ y
get_next [] rest y b = refl
get_next (d ∷ done) rest y b = get_next done rest y b

append_one :
    (done rest : List PortState) (x : PortState) → (done ++ x ∷ []) ++ rest ≡ done ++ x ∷ rest
append_one [] rest x = refl
append_one (d ∷ done) rest x = ap (λ l. d ∷ l) (append_one done rest x)

length_append_one :
    (done : List PortState) (x : PortState) → length (done ++ x ∷ []) ≡ length done + 1
length_append_one [] x = refl
length_append_one (d ∷ done) x = omega (arith, length_append_one done x)

pad-replicate : (left : ℕ) → pad zero_port_state left [] ≡ replicate left zero_port_state
pad-replicate zero = refl
pad-replicate (suc left) = ap (λ l. zero_port_state ∷ l) (pad-replicate left)

-- The entry of one more port, from what the loop then does with the rest.
write_next :
    (cell : ℕ → Port) (agg_id p : ℕ) (ps : List ℕ) (done : List PortState) (left m : ℕ)
    → (let next = if leads p (cell p) then length done else m in
        let more = done ++ lacp_entry cell p ∷ [] in
        filled_ports cell agg_id ps (length more) (more ++ replicate left zero_port_state) next ≡ (
          more ++ pad zero_port_state left (map (lacp_entry cell) (members cell agg_id ps)),
          last_master cell (take left (members cell agg_id ps)) (length more) next,
        ))
    → (let next = if leads p (cell p) then length done else m in
        let array = done ++ zero_port_state ∷ replicate left zero_port_state in
        filled_ports cell agg_id ps
          (length done + 1)
          (set array (length done) (copied (get_or array (length done) zero_port_state) p (cell p)))
          next
        ≡ (
          done
              ++ lacp_entry cell p
                ∷ pad zero_port_state left (map (lacp_entry cell) (members cell agg_id ps)),
          last_master cell (take left (members cell agg_id ps)) (length done + 1) next,
        ))
write_next cell agg_id p ps done left m ih =
    let next = if leads p (cell p) then length done else m in
    let rest = replicate left zero_port_state in
    let array = done ++ zero_port_state ∷ rest in
    let more = done ++ lacp_entry cell p ∷ [] in
    let tail = pad zero_port_state left (map (lacp_entry cell) (members cell agg_id ps)) in
    let wrote : set array (length done)
          (copied (get_or array (length done) zero_port_state) p (cell p))
        ≡ more ++ rest =
      ap (λ y. set array (length done) (copied y p (cell p)))
        (get_next done rest zero_port_state zero_port_state)
      ∙ set_next done rest (lacp_entry cell p) zero_port_state
      ∙ sym (append_one done rest (lacp_entry cell p)) in
    let count = length_append_one done (lacp_entry cell p) in
    ap (λ l. filled_ports cell agg_id ps (length done + 1) l next) wrote
    ∙ ap (λ n. filled_ports cell agg_id ps n (more ++ rest) next) (sym count)
    ∙ ih
    ∙ ap (λ l. (l, last_master cell (take left (members cell agg_id ps)) (length more) next))
        (append_one done tail (lacp_entry cell p))
    ∙ ap
        (λ n. (
          done ++ lacp_entry cell p ∷ tail,
          last_master cell (take left (members cell agg_id ps)) n next,
        ))
        count

pub reported :
    (cell : ℕ → Port) (agg_id : ℕ) (ps : List ℕ) (done : List PortState) (left m : ℕ)
    → length done + left ≡ 8
    → filled_ports cell agg_id ps (length done) (done ++ replicate left zero_port_state) m ≡ (
      done ++ pad zero_port_state left (map (lacp_entry cell) (members cell agg_id ps)),
      last_master cell (take left (members cell agg_id ps)) (length done) m,
    )
unfolding filled_ports
reported cell agg_id [] done zero m h = refl
reported cell agg_id [] done (suc left) m h =
    ap (λ l. (done ++ zero_port_state ∷ l, m)) (sym (pad-replicate left))
reported cell agg_id (p ∷ ps) done zero m h =
    full_up _ _ _ ((cell p).agg_id == agg_id) (leb 8 (length done)) (ground (arith, h))
      (reported cell agg_id ps done zero m h)
  where
    full_up :
        {R : Type 0} (skip more stop : R) (b c : Bool)
        → c ≡ true
        → skip ≡ stop
        → elim b [ true ↦ elim c [ true ↦ stop | false ↦ more ] | false ↦ skip ] ≡ stop
    full_up skip more stop true true e k = refl
    full_up skip more stop true false e k = cc
    full_up skip more stop false c e k = k
reported cell agg_id (p ∷ ps) done (suc left) m h =
    room_left
      (λ xs. (
        done ++ pad zero_port_state (suc left) (map (lacp_entry cell) xs),
        last_master cell (take (suc left) xs) (length done) m,
      ))
      (p ∷ members cell agg_id ps) (members cell agg_id ps) _ _ _ ((cell p).agg_id == agg_id)
      (leb 8 (length done)) (ground (arith, h))
      (write_next cell agg_id p ps done left m (
        reported cell agg_id ps (done ++ lacp_entry cell p ∷ []) left
          (if leads p (cell p) then length done else m)
          (omega (arith, h, length_append_one done (lacp_entry cell p)))))
      (reported cell agg_id ps done (suc left) m h)
  where
    room_left :
        {R : Type 0} (F : List ℕ → R) (xs ys : List ℕ) (skip more stop : R) (b c : Bool)
        → c ≡ false
        → more ≡ F xs
        → skip ≡ F ys
        → elim b [ true ↦ elim c [ true ↦ stop | false ↦ more ] | false ↦ skip ]
          ≡ F (if b then xs else ys)
    room_left F xs ys skip more stop true true e k l = cc
    room_left F xs ys skip more stop true false e k l = k
    room_left F xs ys skip more stop false c e k l = l
