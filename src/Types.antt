-- ===== src/Types.antt =====
-- The data of the program: lacp_lib/LACP/lacp_type.h and lacp_statmch.h (ports, state machines,
-- the system), lacp_lib/lacp_stub.h (the simulated switch). A port structure stands in a store of
-- cells; its address is its `port_index`, since the program keeps at most one port for an index.
-- So a `lacp_port_t *` is a number, and two pointers are equal if the numbers are.
use lacp.Base.{◌≡◌, refl, arith, ℕ, Bool, true, false, List, ◌%◌, ◌^◌, ◌==◌, ◌&&◌, update, [], ◌∷◌}
use lacp.State.{LacpState}

abbrev pub u16 : ℕ → ℕ
u16 n = n % 2 ^ 16

abbrev pub u32 : ℕ → ℕ
u32 n = n % 2 ^ 32

-- `lacp_mac_t`, octets in order.
abbrev pub Mac : Type 0
Mac = List ℕ

pub record PortInfo : Type 0 where
  pub system_priority : ℕ
  pub system_mac : Mac
  pub key : ℕ
  pub port_priority : ℕ
  pub port_no : ℕ
  pub state : LacpState

-- The states of the four machines. `begin` is `LACP_BEGIN`.
pub data RxState : Type 0 where
  begin initialize port_disabled expired current lacp_disabled defaulted : RxState

pub data SelState : Type 0 where
  begin init selection : SelState

pub data MuxState : Type 0 where
  begin detached disable waiting ready_n attached rx_tx : MuxState

pub data TxState : Type 0 where
  begin no_periodic periodic_tx idle tx : TxState

-- `lacp_state_mach_t`: the callbacks are the functions of the machine's module, the owner is the
-- port that holds it.
pub record StateMach (S : Type 0) : Type 0 where
  pub state : S
  pub change_state : Bool
  pub debug : Bool

-- `lacp_port_t`.
pub record Port : Type 0 where
  pub rx : StateMach RxState
  pub sel : StateMach SelState
  pub mux : StateMach MuxState
  pub tx : StateMach TxState
  pub actor : PortInfo
  pub partner : PortInfo
  pub actor_admin : PortInfo
  pub partner_admin : PortInfo
  pub msg_actor : PortInfo
  pub msg_partner : PortInfo
  pub current_while : ℕ
  pub periodic_timer : ℕ
  pub wait_while : ℕ
  pub master_port : ℕ  -- a pointer
  pub port_enabled : Bool
  pub port_moved : Bool
  pub lacp_enabled : Bool
  pub selected : Bool
  pub standby : Bool
  pub speed : ℕ
  pub duplex : ℕ
  pub agg_id : ℕ
  pub rcvd_lacpdu : Bool
  pub ntt : Bool
  pub ready_n : Bool
  pub hold_count : ℕ
  pub tx_lacpdu_cnt : ℕ
  pub rx_lacpdu_cnt : ℕ

-- `lacp_pdu_t`. The reserved octets, which are all 0, and the terminator are left out.
pub record LacpPdu : Type 0 where
  pub slow_protocols_address : List ℕ
  pub src_address : List ℕ
  pub ethertype : ℕ
  pub protocol_subtype : ℕ
  pub protocol_version : ℕ
  pub type_actor : ℕ
  pub len_actor : ℕ
  pub actor : PortInfo
  pub type_partner : ℕ
  pub len_partner : ℕ
  pub partner : PortInfo
  pub type_collector : ℕ
  pub len_collector : ℕ
  pub collector_max_delay : ℕ

-- `lacp_bitmap_t`: the octets of `bmp_array`.
abbrev pub Bitmap : Type 0
Bitmap = List ℕ

-- `lacp_sys_t`: `ports` lists the addresses in the order of the linked list.
pub record LacpSys : Type 0 where
  pub ports : List ℕ
  pub portmap : Bitmap
  pub number_of_ports : ℕ
  pub admin_state : Bool
  pub priority : ℕ
  pub mac : Mac
  pub fast_periodic_time : ℕ
  pub slow_periodic_time : ℕ
  pub short_timeout_time : ℕ
  pub long_timeout_time : ℕ
  pub aggregate_wait_time : ℕ
  pub lacp_timeout : ℕ
  pub tx_hold_count : ℕ

-- `port_attr_t` and `LINK_GROUP_T`.
pub record PortAttr : Type 0 where
  pub slot : ℕ
  pub port : ℕ
  pub speed : ℕ
  pub duplex : ℕ
  pub cd : ℕ
  pub tid : ℕ
  pub link_status : ℕ
  pub prio : ℕ

pub record LinkGroup : Type 0 where
  pub cnt : ℕ
  pub ports : List ℕ

-- The three globals of lacp_stub.c.
pub record Stub : Type 0 where
  pub sys_prio : ℕ
  pub port_list : ℕ → PortAttr
  pub link_groups : ℕ → LinkGroup

-- What the program takes from the host: the byte order of the C library, the four octets of the
-- process id that `trunk_ssp_get_mac` copies, and the octets that stand in a local array before
-- anything is written to it.
pub record Host : Type 0 where
  pub htons : ℕ → ℕ
  pub ntohs : ℕ → ℕ
  pub pid_octets : List ℕ
  pub local_octets : List ℕ

-- The whole state. `sent` holds the frames given to the link, the newest first, each with the
-- index of its port.
pub record World : Type 0 where
  pub host : Host
  pub sys : LacpSys
  pub cell : ℕ → Port
  pub stub : Stub
  pub sent : List (ℕ × LacpPdu)

-- `*port = …` through a pointer.
abbrev pub set_port : World → ℕ → Port → World
set_port w i p = record w { cell = update w.cell i p }

abbrev pub modify_port : World → ℕ → (Port → Port) → World
modify_port w i f = record w { cell = update w.cell i (f (w.cell i)) }

-- `!memcmp(a, b, 6)` on two addresses.
unfoldable pub mac_eq : Mac → Mac → Bool
mac_eq [] [] = true
mac_eq [] (b ∷ bs) = false
mac_eq (a ∷ as_) [] = false
mac_eq (a ∷ as_) (b ∷ bs) = a == b && mac_eq as_ bs

pub mac_eq_sound : (a b : Mac) → mac_eq a b ≡ true → a ≡ b
unfolding mac_eq
mac_eq_sound [] [] h = refl
mac_eq_sound [] (b ∷ bs) h = cc
mac_eq_sound (a ∷ as_) [] h = cc
mac_eq_sound (a ∷ as_) (b ∷ bs) h = ground (arith, mac_eq_sound as_ bs)

pub mac_eq_refl : (m : Mac) → mac_eq m m ≡ true
unfolding mac_eq
mac_eq_refl [] = refl
mac_eq_refl (a ∷ as_) = ground (arith, mac_eq_refl as_)

-- How a call comes back: it returns; it reads through a null pointer, through a pointer that was
-- never set or outside of an array, where C leaves the result undefined; or the fuel given to a loop
-- runs out.
pub data Outcome {ℓ} (A : Type ℓ) : Type ℓ where
  returns : A → Outcome A
  crashes : Outcome A
  runs_out : Outcome A

infixl 5 ◌>>=◌
abbrev pub ◌>>=◌ {ℓ κ} : {A : Type ℓ} {B : Type κ} → Outcome A → (A → Outcome B) → Outcome B
returns a >>= f = f a
crashes >>= f = crashes
runs_out >>= f = runs_out
