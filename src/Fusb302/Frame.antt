-- ===== src/Fusb302/Frame.antt =====
-- NOA_ESP32_PD/FUSB302.cpp: messages through the FIFOs of the chip.
use noa_esp32_pd.Base.{
  ℕ, zero, suc, ◌+◌, ◌-◌, ◌*◌, ◌/◌, ◌%◌, ◌^◌, ◌==◌, bit_and, bit_or, ◌&&◌, Bool, true, false, List,
  [], ◌∷◌, ◌++◌, get_or, take, if◌then◌else◌,
}
use noa_esp32_pd.Base.Bits.{set_bits, clear_bits}
use noa_esp32_pd.Message.Header.{header_cnt, header_type}
use noa_esp32_pd.Message.Types.Ctrl
use noa_esp32_pd.Fusb302.Registers.{
  fifos, control0, control0_tx_start, control1, control1_bist_mode2, control3,
  control3_send_hardreset, tkn_txon, tkn_sync1, tkn_sync2, tkn_packsym, tkn_jamcrc, tkn_eop,
  tkn_txoff,
}
use noa_esp32_pd.Fusb302.Chip.{
  EcError, success, unimplemented, M, ◌>>=◌, ◌>>◌, pure, read, write, xfer, platform_usleep,
  fusb302_flush_tx_fifo, fusb302_rx_fifo_is_empty,
}

-- The bytes of the data objects, as they lie in memory (little endian).
unfoldable pub word_bytes : List ℕ → List ℕ
word_bytes [] = []
word_bytes (w ∷ ws) =
    w % 256 ∷ w / 2 ^ 8 % 256 ∷ w / 2 ^ 16 % 256 ∷ w / 2 ^ 24 % 256 ∷ word_bytes ws

-- `memcpy(payload, buf, len)`: whole words from the front, the others stay.
unfoldable pub copy_words : List ℕ → List ℕ → List ℕ
copy_words [] payload = payload
copy_words (a ∷ b ∷ c ∷ d ∷ bytes) (w ∷ payload) =
    (a + b * 2 ^ 8 + c * 2 ^ 16 + d * 2 ^ 24) ∷ copy_words bytes payload
copy_words _ payload = payload

unfoldable pub get_num_bytes : ℕ → ℕ
get_num_bytes header = header_cnt header * 4 + 2

-- What `fusb302_tcpm_send_message` appends to `buf`. The length left after the header is
-- `get_num_bytes(header) - 2`.
unfoldable pub message_bytes : ℕ → List ℕ → List ℕ
unfolding word_bytes get_num_bytes
message_bytes header data' =
    let len = get_num_bytes header in
    bit_or tkn_packsym (bit_and len 0x1f)
      ∷ bit_and header 0xff
      ∷ bit_and (header / 2 ^ 8) 0xff
      ∷ take (len - 2) (word_bytes data')
    ++ tkn_jamcrc ∷ tkn_eop ∷ tkn_txoff ∷ tkn_txon ∷ []

unfoldable pub fusb302_tcpm_send_message : ℕ → List ℕ → List ℕ → M (List ℕ)
unfolding message_bytes xfer
fusb302_tcpm_send_message header data' buf = xfer (buf ++ message_bytes header data') 0 true

-- `enum tcpm_transmit_type`; the types that the switch does not name are `other`.
pub data TransmitType : Type 0 where
  sop hard_reset bist_mode_2 other : TransmitType

-- The FIFO address and the SOP ordered set, which start `buf`.
abbrev pub sop_bytes : List ℕ
sop_bytes = fifos ∷ tkn_sync1 ∷ tkn_sync1 ∷ tkn_sync1 ∷ tkn_sync2 ∷ []

-- The result of `fusb302_tcpm_send_message` is not looked at.
unfoldable pub fusb302_tcpm_transmit : TransmitType → ℕ → List ℕ → M EcError
unfolding read write fusb302_flush_tx_fifo fusb302_tcpm_send_message platform_usleep
fusb302_tcpm_transmit sop header data' = do
  fusb302_flush_tx_fifo
  fusb302_tcpm_send_message header data' sop_bytes
  platform_usleep 1200
  pure success
fusb302_tcpm_transmit hard_reset header data' = do
  fusb302_flush_tx_fifo
  reg ← read control3
  write control3 (set_bits reg control3_send_hardreset)
  pure success
fusb302_tcpm_transmit bist_mode_2 header data' = do
  fusb302_flush_tx_fifo
  reg1 ← read control1
  write control1 (set_bits reg1 control1_bist_mode2)
  reg0 ← read control0
  write control0 (set_bits reg0 control0_tx_start)
  reg ← read control1
  write control1 (clear_bits reg control1_bist_mode2)
  pure success
fusb302_tcpm_transmit other header data' = do fusb302_flush_tx_fifo; pure unimplemented

-- PACKET_IS_GOOD_CRC
unfoldable pub packet_is_good_crc : ℕ → Bool
packet_is_good_crc head = header_type head == Ctrl.good_crc && header_cnt head == 0

-- A packet out of the RX FIFO, in three transfers: its header, and the `len` bytes of its data
-- objects, which the last transfer leaves at the start of `buf`, before the CRC.
unfoldable pub read_packet : M (ℕ × List ℕ)
unfolding xfer get_num_bytes
read_packet = do
  xfer (fifos ∷ []) 0 false
  first ← xfer [] 3 true
  let head = bit_or (bit_and (get_or first 1 0) 0xff) (bit_and (get_or first 2 0 * 2 ^ 8) 0xff00)
  let len = get_num_bytes head - 2
  rest ← xfer [] (len + 4) true
  pure (head, take len rest)

-- What `fusb302_tcpm_get_message` returns: the header of the last packet read, if one was read,
-- and its bytes, or the error. `no_fuel` is no outcome of the code.
pub data Received : Type 0 where
  packet : ℕ → List ℕ → Received
  nothing : Received
  only_good_crc : ℕ → Received
  no_fuel : Received

-- The loop: read until there is a packet that is no GoodCRC, or the FIFO is empty. The transfers
-- return 0 always, so `rv` is 0.
unfoldable pub receive_loop : ℕ → M Received
unfolding read_packet packet_is_good_crc fusb302_rx_fifo_is_empty
receive_loop zero c = (c, no_fuel)
receive_loop (suc fuel) c =
    let p = read_packet c in
    let e = fusb302_rx_fifo_is_empty p.0 in
    let again = receive_loop fuel e.0 in
    if packet_is_good_crc p.1.0
    then (if e.1 then (e.0, only_good_crc p.1.0) else again)
    else (p.0, packet p.1.0 p.1.1)

unfoldable pub fusb302_tcpm_get_message : ℕ → M Received
unfolding receive_loop fusb302_rx_fifo_is_empty
fusb302_tcpm_get_message fuel c =
    let e = fusb302_rx_fifo_is_empty c in if e.1 then (e.0, nothing) else receive_loop fuel e.0
