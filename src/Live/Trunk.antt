-- ===== src/Live/Trunk.antt =====
-- trunk_api.c: its calls in a system that is ready.
use lacp.Base.{
  ℕ, ◌≤◌, ◌≡◌, refl, true, false, not, ◌||◌, ◌==◌, none, some, arith, ltb, if◌then◌else◌,
}
use lacp.Types.{World, LacpPdu, Bitmap, Outcome, ◌>>=◌}
use lacp.Stub.{db_port_lacp_is_enable}
use lacp.Ssp.{get_global_index, get_port_link_status}
use lacp.Settle.Energy.{enough}
use lacp.Api.{PortCfg, port_max, port_set_cfg, create_ports}
use lacp.Events.{Reply, with_code}
use lacp.Trunk.{
  zero_port_cfg, port_get_prio, one_port, enable_cfg, add_member, port_lacp_enable,
  port_lacp_disable_batch, agg_delete, port_lacp_disable, port_set_prio, cost_cfg,
  ssp_set_port_speed, ssp_set_port_duplex, port_set_speed, port_set_duplex, trunk_link_change,
  port_clear_stat, ssp_rx_lacpdu,
}
use lacp.Cli.{trunk_id_max, enable}
use lacp.Live.{
  restub-IsReady, Returns, Returns-bind, Returns-if, Returns-option, Returns-then, IsReady,
}
use lacp.Live.Calls.{rx_lacpdu-IsReady, port_link_change-IsReady}
use lacp.Live.Config.{port_set_cfg-IsReady}
use lacp.Live.Setup.{create_ports-IsReady, remove_ports-IsReady}

-- A reply whose state is ready.
abbrev pub Replies : Reply → Type 0
Replies m = Returns m (λ a. IsReady a.0)

pub coded : (m : Outcome World) (code : ℕ) → Returns m IsReady → Replies (m >>= with_code code)
coded m code h = Returns-bind m (with_code code) IsReady (λ a. IsReady a.0) h (λ v k. k)

pub recoded : (m : Reply) → Replies m → Replies (m >>= λ r. with_code 0 r.0)
recoded m h =
    Returns-bind m (λ r. with_code 0 r.0) (λ a. IsReady a.0) (λ a. IsReady a.0) h (λ v k. k)

pub indexed : (slot port : ℕ) → (port == 0) ≡ false → get_global_index slot port ≡ none → ⊥
unfolding get_global_index
indexed slot port e h = ground arith

module _ (fuel : ℕ) (enough_fuel : enough port_max ≤ fuel) where
  off_cfg :
      (cfg : PortCfg) (w : World)
      → cfg.lacp_enabled ≡ false
      → IsReady w
      → Returns (port_set_cfg fuel cfg w) IsReady
  off_cfg cfg w e r = port_set_cfg-IsReady fuel enough_fuel cfg w (λ h. cc) r

  pub batch-IsReady :
      (ports : Bitmap) (w : World)
      → IsReady w
      → Returns (port_lacp_disable_batch fuel ports w) IsReady
  unfolding port_lacp_disable_batch
  batch-IsReady ports w r =
      Returns-bind (port_set_cfg fuel (record zero_port_cfg { field_mask = 1; port_bmp = ports }) w)
        _ IsReady IsReady (off_cfg _ w refl r) (λ v. remove_ports-IsReady ports v)

  pub port_lacp_enable-IsReady :
      (slot port agg_id : ℕ) (w : World)
      → (agg_id == 0) ≡ false
      → IsReady w
      → Replies (port_lacp_enable fuel slot port agg_id w)
  unfolding port_lacp_enable
  port_lacp_enable-IsReady slot port agg_id w a r =
      Returns-option (get_global_index slot port) _ _ (λ x. IsReady x.0) (λ _. r)
        (λ i _.
          Returns-bind (create_ports fuel (one_port i) w) _ IsReady (λ x. IsReady x.0)
            (create_ports-IsReady fuel (one_port i) w enough_fuel r)
            (λ u k.
              Returns-option (port_get_prio (add_member agg_id slot port u).stub slot port) _ _
                (λ x. IsReady x.0) (λ _. restub-IsReady u _ k)
                (λ prio _.
                  Returns-bind
                    (port_set_cfg fuel (enable_cfg i agg_id prio) (add_member agg_id slot port u)) _
                    IsReady (λ x. IsReady x.0)
                    (port_set_cfg-IsReady fuel enough_fuel (enable_cfg i agg_id prio) _ (λ _. a)
                      (restub-IsReady u _ k))
                    (λ v q.
                      port_link_change-IsReady fuel v i
                        (if get_port_link_status v.stub i == 0 then 0 else 1) enough_fuel q))))

  pub enable-IsReady :
      (agg_id slot port : ℕ) (w : World) → IsReady w → Replies (enable fuel agg_id slot port w)
  unfolding enable
  enable-IsReady agg_id slot port w r =
      Returns-if (agg_id == 0 || ltb trunk_id_max agg_id) _ _ (λ x. IsReady x.0) (λ _. r)
        (λ e. port_lacp_enable-IsReady slot port agg_id w (ground (arith, e)) r)

  pub port_lacp_disable-IsReady :
      (slot port : ℕ) (w : World) → IsReady w → Replies (port_lacp_disable fuel slot port w)
  unfolding port_lacp_disable
  port_lacp_disable-IsReady slot port w r =
      Returns-if (not (db_port_lacp_is_enable w.stub slot port)) _ _ (λ x. IsReady x.0) (λ _. r)
        (λ _.
          Returns-option (get_global_index slot port) _ _ (λ x. IsReady x.0) (λ _. r)
            (λ i _. coded _ 0 (batch-IsReady (one_port i) _ (restub-IsReady w _ r))))

  pub agg_delete-IsReady :
      (agg_id : ℕ) (w : World) → IsReady w → Returns (agg_delete fuel agg_id w) IsReady
  unfolding agg_delete
  agg_delete-IsReady agg_id w r = batch-IsReady _ _ (restub-IsReady w _ r)

  pub port_set_speed-IsReady :
      (slot port speed : ℕ) (w : World)
      → IsReady w
      → Replies (port_set_speed fuel slot port speed w)
  unfolding port_set_speed ssp_set_port_speed
  port_set_speed-IsReady slot port speed w r =
      Returns-option (get_global_index slot port) _ _ (λ x. IsReady x.0) (λ _. r)
        (λ i _. coded _ 0 (off_cfg (cost_cfg i) _ refl (restub-IsReady w _ r)))

  pub port_set_duplex-IsReady :
      (slot port duplex : ℕ) (w : World)
      → IsReady w
      → Replies (port_set_duplex fuel slot port duplex w)
  unfolding port_set_duplex ssp_set_port_duplex
  port_set_duplex-IsReady slot port duplex w r =
      Returns-option (get_global_index slot port) _ _ (λ x. IsReady x.0) (λ _. r)
        (λ i _. coded _ 0 (off_cfg (cost_cfg i) _ refl (restub-IsReady w _ r)))

  pub link_change-IsReady :
      (slot port up : ℕ) (w : World) → IsReady w → Replies (trunk_link_change fuel slot port up w)
  unfolding trunk_link_change
  link_change-IsReady slot port up w r =
      Returns-if (not (db_port_lacp_is_enable w.stub slot port)) _ _ (λ x. IsReady x.0) (λ _. r)
        (λ _.
          Returns-option (get_global_index slot port) _ _ (λ x. IsReady x.0) (λ _. r)
            (λ i _. port_link_change-IsReady fuel w i up enough_fuel r))

  pub ssp_rx-IsReady :
      (slot port : ℕ) (pdu : LacpPdu) (w : World)
      → ((i : ℕ) → get_global_index slot port ≡ some i → ltb i 18 ≡ true)
      → IsReady w
      → Replies (ssp_rx_lacpdu fuel slot port pdu w)
  unfolding ssp_rx_lacpdu
  ssp_rx-IsReady slot port pdu w b r =
      Returns-if (not (db_port_lacp_is_enable w.stub slot port)) _ _ (λ x. IsReady x.0) (λ _. r)
        (λ _.
          Returns-option (get_global_index slot port) _ _ (λ x. IsReady x.0) (λ _. r)
            (λ i e.
              Returns-then (ltb i 18) _ _ (λ x. IsReady x.0) (b i e)
                (rx_lacpdu-IsReady fuel w i pdu enough_fuel r)))

  pub port_set_prio-IsReady :
      (slot port prio : ℕ) (w : World)
      → (port == 0) ≡ false
      → IsReady w
      → Returns (port_set_prio fuel slot port prio w) IsReady
  unfolding port_set_prio
  port_set_prio-IsReady slot port prio w e r =
      Returns-option (get_global_index slot port) _ _ IsReady (λ h. absurd (indexed slot port e h))
        (λ i _.
          Returns-if (db_port_lacp_is_enable w.stub slot port) _ _ IsReady
            (λ _.
              Returns-bind (port_set_cfg fuel _ w) _ IsReady IsReady (off_cfg _ w refl r)
                (λ v k. restub-IsReady v _ k))
            (λ _. restub-IsReady w _ r))

  pub port_clear_stat-IsReady :
      (slot port : ℕ) (w : World)
      → (port == 0) ≡ false
      → IsReady w
      → Returns (port_clear_stat fuel slot port w) IsReady
  unfolding port_clear_stat
  port_clear_stat-IsReady slot port w e r =
      Returns-option (get_global_index slot port) _ _ IsReady (λ h. absurd (indexed slot port e h))
        (λ i _.
          Returns-if (db_port_lacp_is_enable w.stub slot port) _ _ IsReady (λ _. off_cfg _ w refl r)
            (λ _. r))
