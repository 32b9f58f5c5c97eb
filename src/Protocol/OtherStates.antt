-- ===== src/Protocol/OtherStates.antt =====
-- NOA_ESP32_PD/usb_pd_protocol.cpp: the states that this build leaves out: PD_STATE_BIST_RX and
-- PD_STATE_BIST_TX (CONFIG_COMMON_RUNTIME) and PD_STATE_DRP_AUTO_TOGGLE
-- (CONFIG_USB_PD_DUAL_ROLE_AUTO_TOGGLE). They are no states of `PdState`: a run in one of them says
-- where the port goes.
use noa_esp32_pd.Base.{
  ℕ, ◌+◌, ◌-◌, ◌*◌, ◌^◌, ◌==◌, ◌&&◌, ◌||◌, not, bit_and, bit_or, Bool, true, false, if◌then◌else◌,
  [], ◌∷◌,
}
use noa_esp32_pd.Fusb302.Control.{CcPull}
use noa_esp32_pd.Fusb302.Frame.{sop, bist_mode_2}
use noa_esp32_pd.Message.Types.DataMsg
use noa_esp32_pd.Volt
use noa_esp32_pd.Protocol.Flags
use noa_esp32_pd.Protocol.Port.{
  PdState, disabled, sink, source, snk_disconnected, src_disconnected, DrpState, TcpmDrv, Port,
}
use noa_esp32_pd.Protocol.Core.{
  msec, dual_role_if_else, set_state_timeout, set_flag, set_wake, tcpm_get_cc, tcpm_set_cc,
  tcpm_set_rx_enable,
}
use noa_esp32_pd.Protocol.CcLines.{cc_is_rp}
use noa_esp32_pd.Protocol.Reset.{is_force_source, is_force_sink, is_toggle_off}
use noa_esp32_pd.Protocol.Transmit.{pd_transmit, port_header}

-- BDO_MODE_CARRIER2
abbrev pub bdo_mode_carrier2 : ℕ
bdo_mode_carrier2 = 5 * 2 ^ 28

-- BDO
unfoldable pub bdo : ℕ → ℕ → ℕ
bdo mode cnt = bit_or mode (bit_and cnt 0xffff)

module _ {S : Type 0} (drv : TcpmDrv S) where
  -- `set_state` from one of these states to a disconnected one.
  unfoldable pub disconnect_to : PdState → Port S → Port S
  unfolding set_state_timeout tcpm_set_rx_enable
  disconnect_to next w =
      tcpm_set_rx_enable drv false (record (set_state_timeout 0 disabled w) { task_state = next })

  unfoldable pub send_bist_cmd : Port S → Port S
  unfolding bdo pd_transmit port_header
  send_bist_cmd w =
      (pd_transmit drv sop (port_header DataMsg.bist 1 w) (bdo bdo_mode_carrier2 0 ∷ []) w).0

  -- PD_STATE_BIST_RX
  unfoldable pub run_bist_rx : Port S → Port S
  unfolding send_bist_cmd set_wake disconnect_to
  run_bist_rx w =
      let v = set_wake (msec 60 + msec 20) (send_bist_cmd w) in
      disconnect_to (dual_role_if_else v.power_role snk_disconnected src_disconnected) v

  -- PD_STATE_BIST_TX
  unfoldable pub run_bist_tx : Port S → Port S
  unfolding pd_transmit set_wake disconnect_to
  run_bist_tx w =
      let v = set_wake (msec 50 + msec 20) (pd_transmit drv bist_mode_2 0 [] w).0 in
      disconnect_to (dual_role_if_else v.power_role snk_disconnected src_disconnected) v

-- Where PD_STATE_DRP_AUTO_TOGGLE leads to.
pub data ToggleTarget : Type 0 where
  keeps_toggling to_sink to_source : ToggleTarget

-- The choice of `next_state`.
unfoldable pub toggle_target : DrpState → ℕ → ℕ → ToggleTarget
unfolding cc_is_rp
toggle_target drp cc1 cc2 =
    if cc1 == Volt.open_line && cc2 == Volt.open_line
    then keeps_toggling
    else if (cc_is_rp cc1 || cc_is_rp cc2) && not (is_force_source drp)
    then to_sink
    else if (cc1 == Volt.rd || cc2 == Volt.rd || cc1 == Volt.ra && cc2 == Volt.ra)
        && not (is_toggle_off drp)
        && not (is_force_sink drp)
    then to_source
    else keeps_toggling

module _ {S : Type 0} (drv : TcpmDrv S) (set_drp_toggle : Bool → S → S) where
  unfoldable pub tcpm_set_drp_toggle : Bool → Port S → Port S
  tcpm_set_drp_toggle enable w = record w { tcpc = set_drp_toggle enable w.tcpc }

  -- What the port does on its way there. The -1 of the time until the next run is written as the
  -- pattern of an int of 32 bits.
  unfoldable pub toggle_to : ToggleTarget → Port S → Port S
  unfolding tcpm_set_drp_toggle tcpm_set_cc disconnect_to set_wake set_flag
  toggle_to keeps_toggling w =
      set_wake (2 ^ 32 - 1) (set_flag Flags.tcpc_drp_toggle (tcpm_set_drp_toggle true w))
  toggle_to to_sink w =
      let v = tcpm_set_cc drv CcPull.rd (tcpm_set_drp_toggle false w) in
      disconnect_to drv snk_disconnected (set_wake (msec 2) (record v { power_role = sink }))
  toggle_to to_source w =
      let v = tcpm_set_cc drv CcPull.rp (tcpm_set_drp_toggle false w) in
      disconnect_to drv src_disconnected (set_wake (msec 2) (record v { power_role = source }))

  -- PD_STATE_DRP_AUTO_TOGGLE
  unfoldable pub run_drp_auto_toggle : Port S → Port S
  unfolding tcpm_get_cc toggle_target toggle_to
  run_drp_auto_toggle w =
      let v = tcpm_get_cc drv w in toggle_to (toggle_target v.drp_state v.cc1 v.cc2) v
