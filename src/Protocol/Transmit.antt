-- ===== src/Protocol/Transmit.antt =====
-- NOA_ESP32_PD/usb_pd_protocol.cpp: sending messages. `pd_comm_is_enabled` is 1 in this build and
-- the revision is PD_REV20.
use noa_esp32_pd.Base.{ℕ, List, [], ◌∷◌}
use noa_esp32_pd.Base.Int.{ℤ, pos, negsuc}
use noa_esp32_pd.Board.{pd_src_pdo, pd_src_pdo_cnt, pd_snk_pdo, pd_snk_pdo_cnt}
use noa_esp32_pd.Fusb302.Alert.{TxStatus}
use noa_esp32_pd.Fusb302.Frame.{TransmitType, sop}
use noa_esp32_pd.Message.Header.{pd_header}
use noa_esp32_pd.Message.Types.DataMsg
use noa_esp32_pd.Protocol.Port.{TcpmDrv, Port}
use noa_esp32_pd.Protocol.Core.{is_source, is_dfp, to_num}

-- `tx_status == TCPC_TX_COMPLETE_SUCCESS ? 1 : -1`
unfoldable pub tx_result : TxStatus → ℤ
tx_result TxStatus.success = pos 1
tx_result _ = negsuc 0

module _ {S : Type 0} where
  -- The header of a message from this port.
  unfoldable pub port_header : ℕ → ℕ → Port S → ℕ
  unfolding pd_header
  port_header type cnt w =
      pd_header type (to_num (is_source w.power_role)) (to_num (is_dfp w.data_role)) w.msg_id cnt 1
        0

module _ {S : Type 0} (drv : TcpmDrv S) where
  -- The status is that of the last completion that an alert reported; `tcpm_transmit` does not
  -- set it.
  unfoldable pub pd_transmit : TransmitType → ℕ → List ℕ → Port S → Port S × ℤ
  unfolding tx_result
  pd_transmit type header data' w =
      (record w { tcpc = (drv.transmit type header data' w.tcpc).0 }, tx_result w.tx_status)

  unfoldable pub send_control : ℕ → Port S → Port S × ℤ
  unfolding pd_transmit port_header
  send_control type w = pd_transmit sop (port_header type 0 w) [] w

  -- The table of source capabilities is not empty, so the REJECT of an empty one is not sent.
  unfoldable pub send_source_cap : Port S → Port S × ℤ
  unfolding pd_transmit port_header pd_src_pdo
  send_source_cap w = pd_transmit sop (port_header DataMsg.source_cap pd_src_pdo_cnt w) pd_src_pdo w

  unfoldable pub send_sink_cap : Port S → Port S
  unfolding pd_transmit port_header pd_snk_pdo
  send_sink_cap w = (pd_transmit sop (port_header DataMsg.sink_cap pd_snk_pdo_cnt w) pd_snk_pdo w).0

  unfoldable pub send_request : ℕ → Port S → Port S × ℤ
  unfolding pd_transmit port_header
  send_request rdo w = pd_transmit sop (port_header DataMsg.request 1 w) (rdo ∷ []) w
