-- ===== src/Protocol/Rev30/Avoid.antt =====
-- NOA_ESP32_PD/usb_pd_protocol.cpp: source-coordinated collision avoidance. A source says on its
-- pull-up whether a sink may send; a sink that may not keeps one message for later.
use noa_esp32_pd.Base.{
  ℕ, ◌==◌, ◌||◌, ◌&&◌, not, Bool, true, false, if◌then◌else◌, List, ◌++◌, take, drop,
}
use noa_esp32_pd.Base.Int.{ℤ, pos, negsuc, is_neg}
use noa_esp32_pd.Fusb302.Control.{CcPull, RpValue}
use noa_esp32_pd.Fusb302.Frame.{TransmitType}
use noa_esp32_pd.Message.Header.{header_cnt}
use noa_esp32_pd.Protocol.Flags
use noa_esp32_pd.Protocol.Port.{TcpmDrv, Port}
use noa_esp32_pd.Protocol.Core.{is_source, has_flag, tcpm_set_cc}
use noa_esp32_pd.Protocol.Transmit.{pd_transmit}
use noa_esp32_pd.Volt

-- The port with the fields of `struct pd_protocol` that revision 3.0 adds.
pub record Port30 (S : Type 0) : Type 0 where
  pub port : Port S
  pub rev : ℕ
  pub ca_buffered : Bool
  pub ca_header : ℕ
  pub ca_buffer : List ℕ
  pub ca_type : TransmitType

-- PD_REV30, SINK_TX_OK, SINK_TX_NG
abbrev pub pd_rev30 : ℕ
pd_rev30 = 2

abbrev pub sink_tx_ok : RpValue
sink_tx_ok = RpValue.cur_3a0

abbrev pub sink_tx_ng : RpValue
sink_tx_ng = RpValue.cur_1a5

abbrev pub is_hard_reset : TransmitType → Bool
is_hard_reset TransmitType.hard_reset = true
is_hard_reset _ = false

-- Either line says that the sink must not send.
abbrev pub says_ng : ℕ × ℕ → Bool
says_ng cc = cc.0 == Volt.snk_1_5 || cc.1 == Volt.snk_1_5

module _ {S : Type 0} where
  unfoldable pub pd_ca_reset : Port30 S → Port30 S
  pd_ca_reset p = record p { ca_buffered = false }

  -- Both ends speak revision 3.0 and there is a contract.
  unfoldable pub avoids : Port30 S → Bool
  unfolding has_flag
  avoids p = p.rev == pd_rev30 && has_flag p.port Flags.explicit_contract

  -- The message is kept, and counts as sent; there is place for one.
  unfoldable pub hold : TransmitType → ℕ → List ℕ → Port30 S → Port30 S × ℤ
  unfolding header_cnt
  hold type header data' p =
      let n = header_cnt header in
      if p.ca_buffered then (p, negsuc 0) else (
        record p {
          ca_type = type;
          ca_header = header;
          ca_buffer = take n data' ++ drop n p.ca_buffer;
          ca_buffered = true;
        },
        pos 1,
      )

module _ {S : Type 0} (drv : TcpmDrv S) where
  unfoldable pub sink_can_xmit : RpValue → Port30 S → Port30 S
  unfolding tcpm_set_cc
  sink_can_xmit rp p =
      let w = p.port in
      let v = record w { tcpc = (drv.select_rp_value rp w.tcpc).0 } in
      record p { port = tcpm_set_cc drv CcPull.rp v }

  -- `tcpm_get_cc` into two locals, which it sets.
  unfoldable pub read_cc : Port30 S → Port30 S × (ℕ × ℕ)
  read_cc p =
      let w = p.port in
      let r = drv.get_cc 0 0 w.tcpc in (record p { port = record w { tcpc = r.0 } }, r.1)

  -- The transmission itself, after which a source lets the sink send again.
  unfoldable pub send_now : TransmitType → ℕ → List ℕ → Port30 S → Port30 S × ℤ
  unfolding pd_transmit avoids sink_can_xmit
  send_now type header data' p =
      let r = pd_transmit drv type header data' p.port in
      let q = record p { port = r.0 } in
      if avoids q && is_source q.port.power_role
      then (sink_can_xmit sink_tx_ok q, r.1)
      else (q, r.1)

  -- A sink reads the lines first.
  unfoldable pub send_as_sink : TransmitType → ℕ → List ℕ → Port30 S → Port30 S × ℤ
  unfolding read_cc hold send_now
  send_as_sink type header data' p =
      let r = read_cc p in
      if says_ng r.1 then hold type header data' r.0 else send_now type header data' r.0

  -- `pd_transmit` of a build with revision 3.0, communication being enabled.
  unfoldable pub pd_transmit_rev30 : TransmitType → ℕ → List ℕ → Port30 S → Port30 S × ℤ
  unfolding avoids sink_can_xmit send_now send_as_sink
  pd_transmit_rev30 type header data' p =
      if not (avoids p)
      then send_now type header data' p
      else if is_source p.port.power_role
      then send_now type header data' (sink_can_xmit sink_tx_ng p)
      else if is_hard_reset type
      then send_now type header data' p
      else send_as_sink type header data' p

  -- The second half of `pd_ca_send_pending`, with the lines as they were read.
  unfoldable pub send_pending : ℕ × ℕ → Port30 S → Port30 S
  unfolding pd_transmit_rev30
  send_pending cc p =
      if says_ng cc
      then record p { ca_buffered = false }
      else let r = pd_transmit_rev30 p.ca_type p.ca_header p.ca_buffer p in
        if is_neg r.1 then r.0 else record (r.0) { ca_buffered = false }

  unfoldable pub pd_ca_send_pending : Port30 S → Port30 S
  unfolding read_cc send_pending
  pd_ca_send_pending p = if p.ca_buffered then (let r = read_cc p in send_pending r.1 r.0) else p
