-- ===== src/Fusb302/PullDown.antt =====
-- NOA_ESP32_PD/FUSB302.cpp: no operation of the driver but `set_cc` with TYPEC_CC_RP and `set_vconn`
-- makes the driver pull the CC lines up or source VCONN.
use noa_esp32_pd.Base.{
  ℕ, zero, suc, Bool, true, false, ◌≡◌, List, if◌then◌else◌, Bool-cases, inl, inr,
}
use noa_esp32_pd.Base.Int.{ℤ, pos, negsuc}
use noa_esp32_pd.Fusb302.Registers.{switches0}
use noa_esp32_pd.Fusb302.Chip.{
  Chip, M, read, write, xfer, platform_usleep, fusb302_flush_tx_fifo, fusb302_flush_rx_fifo,
  fusb302_auto_goodcrc_enable, fusb302_rx_fifo_is_empty,
}
use noa_esp32_pd.Fusb302.Sense.{fusb302_tcpm_get_cc, fusb302_detect_cc_pin_sink, measure_bc_lvl}
use noa_esp32_pd.Fusb302.Control.{
  RpValue, CcPull, fusb302_tcpm_init, fusb302_tcpm_select_rp_value, fusb302_tcpm_set_cc,
  fusb302_tcpm_set_polarity, fusb302_tcpm_set_vconn, fusb302_tcpm_set_msg_header,
  fusb302_tcpm_set_rx_enable, rx_start, rx_stop, rx_by_polarity, toggle_off,
}
use noa_esp32_pd.Fusb302.Frame.{
  TransmitType, sop, hard_reset, bist_mode_2, other, fusb302_tcpm_transmit,
  fusb302_tcpm_send_message, read_packet, receive_loop, fusb302_tcpm_get_message,
  packet_is_good_crc,
}

-- The driver pulls down and gives no VCONN.
pub record PullsDown (c : Chip) : Type 0 where
  pub down : c.pulling_up ≡ false
  pub no_vconn : c.vconn_enabled ≡ false

if-PullsDown :
    {A : Type 0} (b : Bool) (m k : M A) (c : Chip)
    → PullsDown (m c).0
    → PullsDown (k c).0
    → PullsDown ((if b then m else k) c).0
if-PullsDown true m k c hm hk = hm
if-PullsDown false m k c hm hk = hk

pub init-PullsDown : (c : Chip) → PullsDown c → PullsDown (fusb302_tcpm_init c).0
unfolding fusb302_tcpm_init fusb302_tcpm_set_polarity fusb302_tcpm_set_vconn
    fusb302_auto_goodcrc_enable read write
init-PullsDown c h = search

pub get_cc-PullsDown :
    (cc1 cc2 : ℕ) (c : Chip) → PullsDown c → PullsDown (fusb302_tcpm_get_cc cc1 cc2 c).0
unfolding fusb302_tcpm_get_cc fusb302_detect_cc_pin_sink measure_bc_lvl read write platform_usleep
get_cc-PullsDown cc1 cc2 c h = rw (h.down) search

pub select_rp_value-PullsDown :
    (v : RpValue) (c : Chip) → PullsDown c → PullsDown (fusb302_tcpm_select_rp_value v c).0
unfolding fusb302_tcpm_select_rp_value read write
select_rp_value-PullsDown v c h = search

pub set_cc-PullsDown : (c : Chip) → PullsDown c → PullsDown (fusb302_tcpm_set_cc CcPull.rd c).0
unfolding fusb302_tcpm_set_cc toggle_off read write
set_cc-PullsDown c h = search

pub set_polarity-PullsDown :
    (p : ℤ) (c : Chip) → PullsDown c → PullsDown (fusb302_tcpm_set_polarity p c).0
unfolding fusb302_tcpm_set_polarity read write
set_polarity-PullsDown p c h = search

pub set_msg_header-PullsDown :
    (p d : Bool) (c : Chip) → PullsDown c → PullsDown (fusb302_tcpm_set_msg_header p d c).0
unfolding fusb302_tcpm_set_msg_header read write
set_msg_header-PullsDown p d c h = search

rx_start-PullsDown : (reg meas : ℕ) (c : Chip) → PullsDown c → PullsDown (rx_start reg meas c).0
unfolding rx_start fusb302_flush_rx_fifo fusb302_auto_goodcrc_enable read write
rx_start-PullsDown reg meas c h = search

rx_by_polarity-PullsDown :
    (p : ℤ) (reg : ℕ) (c : Chip) → PullsDown c → PullsDown (rx_by_polarity p reg c).0
unfolding rx_by_polarity
rx_by_polarity-PullsDown (pos n) reg c h = search (if-PullsDown, rx_start-PullsDown)
rx_by_polarity-PullsDown (negsuc n) reg c h = h

pub set_rx_enable-PullsDown :
    (e : Bool) (c : Chip) → PullsDown c → PullsDown (fusb302_tcpm_set_rx_enable e c).0
unfolding fusb302_tcpm_set_rx_enable rx_stop fusb302_auto_goodcrc_enable read write
set_rx_enable-PullsDown true c h =
    let d = read switches0 (record c { rx_enable = true }) in
    let hd : PullsDown d.0 = search in rx_by_polarity-PullsDown c.cc_polarity _ d.0 hd
set_rx_enable-PullsDown false c h = search

pub transmit-PullsDown :
    (t : TransmitType) (head : ℕ) (data' : List ℕ) (c : Chip)
    → PullsDown c
    → PullsDown (fusb302_tcpm_transmit t head data' c).0
unfolding fusb302_tcpm_transmit fusb302_flush_tx_fifo fusb302_tcpm_send_message platform_usleep read
    write xfer
transmit-PullsDown sop head data' c h = search
transmit-PullsDown hard_reset head data' c h = search
transmit-PullsDown bist_mode_2 head data' c h = search
transmit-PullsDown other head data' c h = search

read_packet-PullsDown : (c : Chip) → PullsDown c → PullsDown (read_packet c).0
unfolding read_packet xfer
read_packet-PullsDown c h = search

is_empty-PullsDown : (c : Chip) → PullsDown c → PullsDown (fusb302_rx_fifo_is_empty c).0
unfolding fusb302_rx_fifo_is_empty read
is_empty-PullsDown c h = search

receive_loop-PullsDown : (fuel : ℕ) (c : Chip) → PullsDown c → PullsDown (receive_loop fuel c).0
unfolding receive_loop
receive_loop-PullsDown zero c h = h
receive_loop-PullsDown (suc fuel) c h =
    let p = read_packet c in
    let e = fusb302_rx_fifo_is_empty p.0 in
    let hp = read_packet-PullsDown c h in
    let he = is_empty-PullsDown p.0 hp in
    let hr = receive_loop-PullsDown fuel e.0 he in
    elim (Bool-cases (packet_is_good_crc p.1.0)) [
      | inl g ↦ elim (Bool-cases e.1) [ inl k ↦ rw (g, k) he | inr k ↦ rw (g, k) hr ]
      | inr g ↦ rw (g) hp
    ]

pub get_message-PullsDown :
    (fuel : ℕ) (c : Chip) → PullsDown c → PullsDown (fusb302_tcpm_get_message fuel c).0
unfolding fusb302_tcpm_get_message
get_message-PullsDown fuel c h =
    let e = fusb302_rx_fifo_is_empty c in
    let he = is_empty-PullsDown c h in
    let hr = receive_loop-PullsDown fuel e.0 he in
    elim (Bool-cases e.1) [ inl k ↦ rw (k) he | inr k ↦ rw (k) hr ]
