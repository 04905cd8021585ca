-- ===== src/Sel/Keys.antt =====
-- lacp_sel.c: the loop that reads the keys of an aggregation's ports anew.
use lacp.Base.{ℕ, ◌≡◌, refl, ◌∙◌, not, ◌==◌, if◌then◌else◌, List, [], ◌∷◌, arith}
use lacp.Types.{World, modify_port, u16}
use lacp.Ssp.{get_port_oper_key}
use lacp.Sel.{update_keys}

-- One round of the loop.
abbrev pub keys_round : ℕ → ℕ → World → World
keys_round agg_id q w =
    if not (agg_id == (w.cell q).agg_id)
    then w
    else modify_port w q
        (λ r. record r { actor = record (r.actor) { key = u16 (get_port_oper_key w.stub q) } })

keys_round-agg_id :
    (agg_id q : ℕ) (w : World) (p : ℕ) → ((keys_round agg_id q w).cell p).agg_id ≡ (w.cell p).agg_id
keys_round-agg_id agg_id q w p = ground arith

pub update_keys-agg_id :
    (agg_id : ℕ) (ps : List ℕ) (w : World) (p : ℕ)
    → ((update_keys agg_id ps w).cell p).agg_id ≡ (w.cell p).agg_id
unfolding update_keys
update_keys-agg_id agg_id [] w p = refl
update_keys-agg_id agg_id (q ∷ ps) w p =
    update_keys-agg_id agg_id ps (keys_round agg_id q w) p ∙ keys_round-agg_id agg_id q w p

keys_round-sys : (agg_id q : ℕ) (w : World) → (keys_round agg_id q w).sys ≡ w.sys
keys_round-sys agg_id q w = ground arith

pub update_keys-sys : (agg_id : ℕ) (ps : List ℕ) (w : World) → (update_keys agg_id ps w).sys ≡ w.sys
unfolding update_keys
update_keys-sys agg_id [] w = refl
update_keys-sys agg_id (q ∷ ps) w =
    update_keys-sys agg_id ps (keys_round agg_id q w) ∙ keys_round-sys agg_id q w
