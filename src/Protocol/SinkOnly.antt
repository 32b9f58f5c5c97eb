-- ===== src/Protocol/SinkOnly.antt =====
-- NOA_ESP32_PD/usb_pd_protocol.cpp as the sketch configures it: the port starts as a sink with its
-- dual role frozen, Try.SRC off and no task events. The invariant of such a port, and what the
-- primitive operations do to it. `Safe` is any property of the chip that the driver keeps.
pub mod States
pub mod Messages
pub mod Controls
pub mod Runs
use noa_esp32_pd.Base.{
  ℕ, ◌<◌, Bool, true, false, ◌&&◌, ◌||◌, if◌then◌else◌, ◌≡◌, refl, ◌==◌, leb, arith, bit_and, List,
  [], ◌+◌,
}
use noa_esp32_pd.Base.Bits.Fields.{bit_and_mask}
use noa_esp32_pd.Base.Int.{ℤ, pos}
use noa_esp32_pd.Fusb302.Alert.{TxStatus}
use noa_esp32_pd.Fusb302.Control.{CcPull, RpValue}
use noa_esp32_pd.Fusb302.Frame.{TransmitType, sop}
use noa_esp32_pd.Protocol.Port.{PdState, disabled, PowerRole, sink, source, DrpState, TcpmDrv, Port}
use noa_esp32_pd.Protocol.Core.{
  set_state, same_state, in_state, index, set_wake, set_flag, clear_flag, set_state_timeout,
  tcpm_set_rx_enable, start_timer, read_time, tcpm_get_cc, tcpm_set_cc, tcpm_set_polarity,
  pd_update_roles, dual_role_if_else, inc_id, is_source, is_dfp, pd_transmit_complete,
}
use noa_esp32_pd.Protocol.Transmit.{pd_transmit, send_control, port_header}

-- The states that a port with the sink role is ever in: those before SNK_SWAP_INIT, SRC_READY,
-- where a rejected request leaves it, SRC_GET_SINK_CAP and SRC_NEGOCIATE, which SRC_READY may go
-- on to, and the resets.
unfoldable pub is_sink_side : PdState → Bool
unfolding index
is_sink_side s =
    leb (index s) 8 || index s == 19 || index s == 23 || index s == 24 || leb 30 (index s)

-- The operations of the driver keep `Safe`, where the CC lines are pulled down only.
pub record KeepsSafe {S : Type 0} (drv : TcpmDrv S) (Safe : S → Type 0) : Type 0 where
  pub init : (s : S) → Safe s → Safe (drv.init s).0
  pub release : (s : S) → Safe s → Safe (drv.release s).0
  pub get_cc : (cc1 cc2 : ℕ) (s : S) → Safe s → Safe (drv.get_cc cc1 cc2 s).0
  pub select_rp_value : (v : RpValue) (s : S) → Safe s → Safe (drv.select_rp_value v s).0
  pub set_cc_rd : (s : S) → Safe s → Safe (drv.set_cc CcPull.rd s).0
  pub set_polarity : (p : ℤ) (s : S) → Safe s → Safe (drv.set_polarity p s).0
  pub set_msg_header : (p d : Bool) (s : S) → Safe s → Safe (drv.set_msg_header p d s).0
  pub set_rx_enable : (e : Bool) (s : S) → Safe s → Safe (drv.set_rx_enable e s).0
  pub get_message : (s : S) → Safe s → Safe (drv.get_message s).0
  pub transmit :
      (t : TransmitType) (h : ℕ) (d : List ℕ) (s : S) → Safe s → Safe (drv.transmit t h d s).0

-- What the invariant says of the port's own fields.
abbrev pub IsSinkPort : {S : Type 0} → Port S → Type 0
IsSinkPort w =
    (w.power_role ≡ sink)
    × (w.drp_state ≡ DrpState.freeze)
    × (w.pd_try_src_enable ≡ false)
    × (w.evt ≡ 0)
    × (w.msg_id < 8)
    × (is_sink_side w.task_state ≡ true)
    × (is_sink_side w.timeout_state ≡ true)

pub record IsSinkOnly {S : Type 0} (Safe : S → Type 0) (w : Port S) : Type 0 where
  pub safe : Safe w.tcpc
  pub port : IsSinkPort w

-- The Boolean functions on states, as lemmas that need no port.
pub same_state-false :
    (a b : PdState) → is_sink_side a ≡ true → is_sink_side b ≡ false → same_state a b ≡ false
unfolding same_state is_sink_side
same_state-false a b ha hb = ground arith

pub if_side :
    (b : Bool) (x y : PdState)
    → is_sink_side x ≡ true
    → is_sink_side y ≡ true
    → is_sink_side (if b then x else y) ≡ true
if_side true x y hx hy = hx
if_side false x y hx hy = hy

pub role_side :
    (r : PowerRole) (x y : PdState)
    → r ≡ sink
    → is_sink_side x ≡ true
    → is_sink_side (dual_role_if_else r x y) ≡ true
role_side sink x y e h = h
role_side source x y e h = ground arith

module _ {S : Type 0} (Safe : S → Type 0) where
  pub if-IsSinkOnly :
      (b : Bool) (x y : Port S)
      → IsSinkOnly Safe x
      → IsSinkOnly Safe y
      → IsSinkOnly Safe (if b then x else y)
  if-IsSinkOnly true x y hx hy = hx
  if-IsSinkOnly false x y hx hy = hy

  pub if_pair-IsSinkOnly :
      (b : Bool) (x y : Port S × ℤ)
      → IsSinkOnly Safe x.0
      → IsSinkOnly Safe y.0
      → IsSinkOnly Safe (if b then x else y).0
  if_pair-IsSinkOnly true x y hx hy = hx
  if_pair-IsSinkOnly false x y hx hy = hy

  -- A branch that is never taken.
  pub else-IsSinkOnly :
      (b : Bool) (x y : Port S)
      → b ≡ false
      → IsSinkOnly Safe y
      → IsSinkOnly Safe (if b then x else y)
  else-IsSinkOnly true x y e h = ground arith
  else-IsSinkOnly false x y e h = h

  pub by_role-IsSinkOnly :
      (r : PowerRole) (x y : Port S)
      → r ≡ sink
      → IsSinkOnly Safe x
      → IsSinkOnly Safe (dual_role_if_else r x y)
  by_role-IsSinkOnly sink x y e h = h
  by_role-IsSinkOnly source x y e h = ground arith

  pub in_state-false :
      (w : Port S) (s : PdState) → IsSinkOnly Safe w → is_sink_side s ≡ false → in_state w s ≡ false
  unfolding in_state
  in_state-false w s h e = same_state-false w.task_state s h.port.5 e

  pub set_wake-IsSinkOnly :
      (t : ℕ) (w : Port S) → IsSinkOnly Safe w → IsSinkOnly Safe (set_wake t w)
  unfolding set_wake
  set_wake-IsSinkOnly t w h = record { safe = h.safe; port = h.port }

  pub set_flag-IsSinkOnly :
      (m : ℕ) (w : Port S) → IsSinkOnly Safe w → IsSinkOnly Safe (set_flag m w)
  unfolding set_flag
  set_flag-IsSinkOnly m w h = record { safe = h.safe; port = h.port }

  pub clear_flag-IsSinkOnly :
      (m : ℕ) (w : Port S) → IsSinkOnly Safe w → IsSinkOnly Safe (clear_flag m w)
  unfolding clear_flag
  clear_flag-IsSinkOnly m w h = record { safe = h.safe; port = h.port }

  pub read_time-IsSinkOnly : (w : Port S) → IsSinkOnly Safe w → IsSinkOnly Safe (read_time w).0
  unfolding read_time
  read_time-IsSinkOnly w h = record { safe = h.safe; port = h.port }

  -- A message counter that starts again.
  pub reset_id-IsSinkOnly :
      (w : Port S) → IsSinkOnly Safe w → IsSinkOnly Safe (record w { msg_id = 0 })
  reset_id-IsSinkOnly w h =
      let p = h.port in record { safe = h.safe; port = (p.0, p.1, p.2, p.3, omega arith, p.5, p.6) }

  pub role-sink : (w : Port S) → IsSinkOnly Safe w → w.power_role ≡ sink
  role-sink w h = h.port.0

module _ {S : Type 0} (drv : TcpmDrv S) (Safe : S → Type 0) (keeps : KeepsSafe drv Safe) where
  pub set_rx_enable-IsSinkOnly :
      (e : Bool) (w : Port S) → IsSinkOnly Safe w → IsSinkOnly Safe (tcpm_set_rx_enable drv e w)
  unfolding tcpm_set_rx_enable
  set_rx_enable-IsSinkOnly e w h = record {
    safe = keeps.set_rx_enable e w.tcpc h.safe;
    port = h.port;
  }

  pub set_state-IsSinkOnly :
      (next : PdState) (w : Port S)
      → is_sink_side next ≡ true
      → IsSinkOnly Safe w
      → IsSinkOnly Safe (set_state drv next w)
  unfolding set_state set_state_timeout is_sink_side index
  set_state-IsSinkOnly next w e h =
      let v = record (set_state_timeout 0 disabled w) { task_state = next } in
      let hv : IsSinkOnly Safe v = record {
        safe = h.safe;
        port = (h.port.0, h.port.1, h.port.2, h.port.3, h.port.4, e, refl);
      } in
      search (if-IsSinkOnly, set_rx_enable-IsSinkOnly)

  pub set_cc-IsSinkOnly :
      (w : Port S) → IsSinkOnly Safe w → IsSinkOnly Safe (tcpm_set_cc drv CcPull.rd w)
  unfolding tcpm_set_cc
  set_cc-IsSinkOnly w h = record { safe = keeps.set_cc_rd w.tcpc h.safe; port = h.port }

  pub get_cc-IsSinkOnly : (w : Port S) → IsSinkOnly Safe w → IsSinkOnly Safe (tcpm_get_cc drv w)
  unfolding tcpm_get_cc
  get_cc-IsSinkOnly w h = record { safe = keeps.get_cc w.cc1 w.cc2 w.tcpc h.safe; port = h.port }

  pub set_polarity-IsSinkOnly :
      (w : Port S) → IsSinkOnly Safe w → IsSinkOnly Safe (tcpm_set_polarity drv w)
  unfolding tcpm_set_polarity
  set_polarity-IsSinkOnly w h = record {
    safe = keeps.set_polarity (pos w.polarity) w.tcpc h.safe;
    port = h.port;
  }

  pub update_roles-IsSinkOnly :
      (w : Port S) → IsSinkOnly Safe w → IsSinkOnly Safe (pd_update_roles drv w)
  unfolding pd_update_roles
  update_roles-IsSinkOnly w h = record {
    safe = keeps.set_msg_header (is_source w.power_role) (is_dfp w.data_role) w.tcpc h.safe;
    port = h.port;
  }

  pub transmit-IsSinkOnly :
      (t : TransmitType) (head : ℕ) (data' : List ℕ) (w : Port S)
      → IsSinkOnly Safe w
      → IsSinkOnly Safe (pd_transmit drv t head data' w).0
  unfolding pd_transmit
  transmit-IsSinkOnly t head data' w h = record {
    safe = keeps.transmit t head data' w.tcpc h.safe;
    port = h.port;
  }

  pub send_control-IsSinkOnly :
      (t : ℕ) (w : Port S) → IsSinkOnly Safe w → IsSinkOnly Safe (send_control drv t w).0
  unfolding send_control
  send_control-IsSinkOnly t w h = transmit-IsSinkOnly sop (port_header t 0 w) [] w h

  -- Starting the timer of a state of the sink side.
  pub start_timer-IsSinkOnly :
      (wait : ℕ) (next : PdState) (w : Port S)
      → is_sink_side next ≡ true
      → IsSinkOnly Safe w
      → IsSinkOnly Safe (start_timer wait next w)
  unfolding start_timer set_state_timeout read_time
  start_timer-IsSinkOnly wait next w e h = record {
    safe = h.safe;
    port = (h.port.0, h.port.1, h.port.2, h.port.3, h.port.4, h.port.5, e);
  }

  -- A completed transmission, whatever its status.
  pub transmit_complete-IsSinkOnly :
      (status : TxStatus) (w : Port S)
      → IsSinkOnly Safe w
      → IsSinkOnly Safe (pd_transmit_complete status w)
  unfolding pd_transmit_complete inc_id
  transmit_complete-IsSinkOnly TxStatus.success w h =
      let hid : bit_and (w.msg_id + 1) 7 < 8 = omega (arith, bit_and_mask 3 (w.msg_id + 1)) in
      record {
        safe = h.safe;
        port = (h.port.0, h.port.1, h.port.2, h.port.3, hid, h.port.5, h.port.6);
      }
  transmit_complete-IsSinkOnly TxStatus.discarded w h = search
  transmit_complete-IsSinkOnly TxStatus.failed w h = search

pub ruleset sink_rules = (
  else-IsSinkOnly, if-IsSinkOnly, if_side, role_side, by_role-IsSinkOnly, role-sink,
  set_wake-IsSinkOnly, set_flag-IsSinkOnly, clear_flag-IsSinkOnly, read_time-IsSinkOnly,
  reset_id-IsSinkOnly, if_pair-IsSinkOnly, set_rx_enable-IsSinkOnly, set_state-IsSinkOnly,
  set_cc-IsSinkOnly, get_cc-IsSinkOnly, set_polarity-IsSinkOnly, update_roles-IsSinkOnly,
  transmit-IsSinkOnly, send_control-IsSinkOnly, start_timer-IsSinkOnly,
)
