-- ===== src/Protocol/Port.antt =====
-- NOA_ESP32_PD/usb_pd_protocol.cpp and usb_pd.h: the state of the port, and the driver interface
-- (`struct tcpm_drv` of usb_pd_tcpm.h) through which the protocol layer reaches the chip. The
-- build has one port, so `pd[port]`, the statics of the file, those of usb_pd_policy.cpp and the
-- two globals of the sketch are one record.
use noa_esp32_pd.Base.{ℕ, Bool, List}
use noa_esp32_pd.Base.Int.{ℤ}
use noa_esp32_pd.Fusb302.Chip.{EcError}
use noa_esp32_pd.Fusb302.Control.{RpValue, CcPull}
use noa_esp32_pd.Fusb302.Frame.{TransmitType, Received}
use noa_esp32_pd.Fusb302.Alert.{TxStatus}

-- `enum pd_states`, in the configuration of usb_pd_driver.h.
pub data PdState : Type 0 where
  disabled suspended : PdState
  snk_disconnected snk_disconnected_debounce snk_hard_reset_recover snk_discovery : PdState
  snk_requested snk_transition snk_ready : PdState
  snk_swap_init snk_swap_snk_disable snk_swap_src_disable snk_swap_standby : PdState
  snk_swap_complete : PdState
  src_disconnected src_disconnected_debounce src_hard_reset_recover src_startup : PdState
  src_discovery src_negociate src_accepted src_powered src_transition src_ready : PdState
  src_get_sink_cap dr_swap : PdState
  src_swap_init src_swap_snk_disable src_swap_src_disable src_swap_standby : PdState
  soft_reset hard_reset_send hard_reset_execute : PdState

-- `enum pd_cc_states`
pub data CcState : Type 0 where
  cc_none no_ufp audio_acc debug_acc ufp_attached dfp_attached : CcState

-- `enum pd_dual_role_states`
pub data DrpState : Type 0 where
  toggle_on toggle_off freeze force_sink force_source : DrpState

-- `enum vdm_states`
pub data VdmState : Type 0 where
  err_busy err_send err_tmout vdm_done vdm_ready vdm_busy wait_rsp_busy : VdmState

pub data PowerRole : Type 0 where
  sink source : PowerRole

pub data DataRole : Type 0 where
  ufp dfp : DataRole

-- The operations of the driver that the protocol layer calls. The pointers that `get_cc` and
-- `get_message` write through are arguments and results.
pub record TcpmDrv (S : Type 0) : Type 0 where
  pub init : S → S × EcError
  pub release : S → S × EcError
  pub get_cc : ℕ → ℕ → S → S × (ℕ × ℕ)
  pub select_rp_value : RpValue → S → S × EcError
  pub set_cc : CcPull → S → S × EcError
  pub set_polarity : ℤ → S → S × EcError
  pub set_msg_header : Bool → Bool → S → S × EcError
  pub set_rx_enable : Bool → S → S × EcError
  pub get_message : S → S × Received
  pub transmit : TransmitType → ℕ → List ℕ → S → S × EcError

-- What `millis()` and `micros()` return, one value for each call.
pub record Clock : Type 0 where
  pub millis : ℕ → ℕ
  pub micros : ℕ → ℕ
  pub calls : ℕ

pub record Port (S : Type 0) : Type 0 where
  pub tcpc : S
  pub clock : Clock
  -- `struct pd_protocol`
  pub power_role : PowerRole
  pub data_role : DataRole
  pub msg_id : ℕ
  pub polarity : ℕ
  pub task_state : PdState
  pub last_state : PdState
  pub req_suspend_state : Bool
  pub timeout_state : PdState
  pub flags : ℕ
  pub state_timeout : ℕ  -- `pd[port].timeout`
  pub src_recover : ℕ
  pub cc_debounce : ℕ
  pub cc_state : CcState
  pub tx_status : TxStatus
  pub requested_idx : ℕ
  pub curr_limit : ℕ
  pub supply_voltage : ℕ
  pub new_power_request : Bool
  pub prev_request_mv : ℕ
  pub try_src_marker : ℕ
  pub vdm_state : VdmState
  pub vdm_timeout : ℕ
  pub vdo_data : List ℕ
  pub vdo_count : ℕ
  pub vdo_retry : ℕ
  -- the statics of usb_pd_protocol.cpp
  pub drp_state : DrpState
  pub pd_try_src_enable : Bool
  pub head : ℕ
  pub payload : List ℕ
  pub wake : ℕ  -- `timeout`, the time until the next run
  pub cc1 : ℕ
  pub cc2 : ℕ
  pub incoming_packet : Bool
  pub hard_reset_count : ℕ
  pub next_role_swap : ℕ
  pub snk_hard_reset_vbus_off : Bool
  pub typec_curr : ℕ
  pub typec_curr_change : Bool
  pub new_cc_state : CcState
  pub caps_count : ℕ
  pub hard_reset_sent : Bool
  pub snk_cap_count : ℕ
  pub evt : ℕ
  -- the statics of usb_pd_policy.cpp
  pub pd_src_caps : List ℕ
  pub pd_src_cap_cnt : ℕ
  pub max_request_mv : ℕ
  -- the globals of NOA_ESP32_PD.ino
  pub pd_source_cap_current_index : ℕ
  pub pd_source_cap_max_index : ℕ
