-- ===== src/Fusb302/Receive.antt =====
-- NOA_ESP32_PD/FUSB302.cpp: `fusb302_tcpm_get_message`, its results and the end of its loop.
use noa_esp32_pd.Base.{
  ℕ, zero, suc, ◌+◌, ◌-◌, ◌*◌, ◌≤◌, ◌<◌, ◌==◌, leb, ◌&&◌, not, Bool, true, false, ◌≡◌, refl, sym,
  ap, ◌∙◌, List, [], ◌∷◌, length, length-take_le, arith, Bool-cases, inl, inr,
}
use noa_esp32_pd.Base.Bits.{has}
use noa_esp32_pd.Wire.{
  Bus, slave_addr, begin_transmission, request_from, write, tcpc_xfer, write_all, call, wire_read,
  tcpc_read,
}
use noa_esp32_pd.Message.Header.{header_cnt}
use noa_esp32_pd.Fusb302.Registers.{fifos, status1_rx_empty}
use noa_esp32_pd.Fusb302.Chip.{Chip, read, xfer, fusb302_rx_fifo_is_empty}
use noa_esp32_pd.Fusb302.Frame.{
  get_num_bytes, packet_is_good_crc, read_packet, Received, packet, only_good_crc, no_fuel,
  receive_loop, fusb302_tcpm_get_message,
}
use noa_esp32_pd.Fusb302.Packets.{length-read_all, asked-read_all, header_cnt-lt}

pub asked-write_all :
    (out : List ℕ) (b : Bus)
    → ((write_all out b).asked ≡ b.asked) × ((write_all out b).answer ≡ b.answer)
unfolding write_all call
asked-write_all [] b = (refl, refl)
asked-write_all (x ∷ out) b = asked-write_all out (call (write x) b)

-- A transfer reads as many bytes as it is to, and takes one answer for each.
pub xfer-asked :
    (out : List ℕ) (n : ℕ) (stop : Bool) (c : Chip)
    → let r = xfer out n stop c in
      (r.0.bus.asked ≡ c.bus.asked + n) × (r.0.bus.answer ≡ c.bus.answer) × (length r.1 ≡ n)
unfolding xfer tcpc_xfer call
xfer-asked out n stop c =
    let b = call (begin_transmission slave_addr) c.bus in
    let w = asked-write_all out b in
    let b2 = call (request_from slave_addr n stop) (write_all out b) in
    let r = asked-read_all n b2 in
    elim (Bool-cases (n == 0)) [
      | inl e ↦ (let z : n ≡ 0 = ground arith in rw (e) (omega (arith, w.0, z), w.1, sym z))
      | inr e ↦ rw (e) (omega (arith, w.0, r.0), r.1 ∙ w.1, length-read_all n b2)
    ]

-- Reading a packet takes 3 answers for the token and the header, and one for each byte after it,
-- CRC included; and it yields 4 bytes for each data object.
read_packet-asked :
    (c : Chip)
    → let p = read_packet c in
      (p.0.bus.asked ≡ c.bus.asked + 7 + 4 * header_cnt p.1.0)
      × (p.0.bus.answer ≡ c.bus.answer)
      × (length p.1.1 ≡ 4 * header_cnt p.1.0)
unfolding read_packet get_num_bytes
read_packet-asked c =
    let head = (read_packet c).1.0 in
    let len = header_cnt head * 4 + 2 - 2 in
    let r1 = xfer (fifos ∷ []) 0 false c in
    let r2 = xfer [] 3 true r1.0 in
    let r3 = xfer [] (len + 4) true r2.0 in
    let e1 = xfer-asked (fifos ∷ []) 0 false c in
    let e2 = xfer-asked [] 3 true r1.0 in
    let e3 = xfer-asked [] (len + 4) true r2.0 in
    (
      omega (arith, e1.0, e2.0, e3.0),
      e3.1 ∙ e2.1 ∙ e1.1,
      length-take_le len r3.1 (omega (arith, e3.2)) ∙ omega arith,
    )

is_empty-asked :
    (c : Chip)
    → let e = fusb302_rx_fifo_is_empty c in
      (e.0.bus.asked ≡ c.bus.asked + 1)
      × (e.0.bus.answer ≡ c.bus.answer)
      × (e.1 ≡ has (c.bus.answer c.bus.asked) status1_rx_empty)
unfolding fusb302_rx_fifo_is_empty read tcpc_read wire_read call
is_empty-asked c = (refl, refl, refl)

good_crc-cnt : (head : ℕ) → packet_is_good_crc head ≡ true → header_cnt head ≡ 0
unfolding packet_is_good_crc
good_crc-cnt head h = ground arith

unfoldable pub is_returned : Received → Bool
is_returned no_fuel = false
is_returned _ = true

-- What a result promises: a packet is no GoodCRC, and has 4 bytes for each of at most 7 objects.
unfoldable pub is_sound : Received → Bool
unfolding packet_is_good_crc
is_sound (packet head bytes) =
    not (packet_is_good_crc head) && length bytes == 4 * header_cnt head && leb (length bytes) 28
is_sound (only_good_crc head) = packet_is_good_crc head
is_sound _ = true

sound_packet :
    (head : ℕ) (bytes : List ℕ)
    → packet_is_good_crc head ≡ false
    → length bytes ≡ 4 * header_cnt head
    → is_sound (packet head bytes) ≡ true
unfolding is_sound
sound_packet head bytes g n = rw (g) (ground (arith, n, header_cnt-lt head))

receive_loop-is_sound : (fuel : ℕ) (c : Chip) → is_sound (receive_loop fuel c).1 ≡ true
unfolding receive_loop is_sound
receive_loop-is_sound zero c = refl
receive_loop-is_sound (suc fuel) c =
    let p = read_packet c in
    let e = fusb302_rx_fifo_is_empty p.0 in
    let n : length p.1.1 ≡ 4 * header_cnt p.1.0 = (read_packet-asked c).2 in
    elim (Bool-cases (packet_is_good_crc p.1.0)) [
      | inl g ↦ elim (Bool-cases e.1) [
        | inl k ↦ rw (g, k) g
        | inr k ↦ rw (g, k) (receive_loop-is_sound fuel e.0)
      ]
      | inr g ↦ rw (g) (sound_packet p.1.0 p.1.1 g n)
    ]

receive_loop-returns :
    (fuel n : ℕ) (c : Chip)
    → n < fuel
    → has (c.bus.answer (c.bus.asked + 7 + 8 * n)) status1_rx_empty ≡ true
    → is_returned (receive_loop fuel c).1 ≡ true
unfolding receive_loop is_returned
receive_loop-returns zero n c h e = ground arith
receive_loop-returns (suc fuel) zero c h k =
    let p = read_packet c in
    let e = fusb302_rx_fifo_is_empty p.0 in
    let rp = read_packet-asked c in
    elim (Bool-cases (packet_is_good_crc p.1.0)) [
      | inl g ↦
          (let a : p.0.bus.asked ≡ c.bus.asked + 7 + 8 * 0 =
              omega (arith, rp.0, good_crc-cnt p.1.0 g) in
            let q : e.1 ≡ true = (is_empty-asked p.0).2 ∙ rw (rp.1, a) k in rw (g, q) refl)
      | inr g ↦ rw (g) refl
    ]
receive_loop-returns (suc fuel) (suc n) c h k =
    let p = read_packet c in
    let e = fusb302_rx_fifo_is_empty p.0 in
    let rp = read_packet-asked c in
    let re = is_empty-asked p.0 in
    elim (Bool-cases (packet_is_good_crc p.1.0)) [
      | inl g ↦
          (let a : e.0.bus.asked + 7 + 8 * n ≡ c.bus.asked + 7 + 8 * suc n =
              omega (arith, rp.0, re.0, good_crc-cnt p.1.0 g) in
            let k2 : has (e.0.bus.answer (e.0.bus.asked + 7 + 8 * n)) status1_rx_empty ≡ true =
              rw (re.1, rp.1, a) k in
            let r = receive_loop-returns fuel n e.0 (omega arith) k2 in
            elim (Bool-cases e.1) [ inl q ↦ rw (g, q) refl | inr q ↦ rw (g, q) r ])
      | inr g ↦ rw (g) refl
    ]

-- With fuel for as many packets as the FIFO has before the chip first reports it empty, reading a
-- message returns, and what it returns is a packet that is no GoodCRC with 4 bytes for each of its
-- at most 7 data objects, or word that there was none. A GoodCRC takes 8 answers of the chip, so
-- its report after `n` of them is answer 8 * n.
pub get_message-returns :
    (fuel n : ℕ) (c : Chip)
    → n ≤ fuel
    → has (c.bus.answer (c.bus.asked + 8 * n)) status1_rx_empty ≡ true
    → let r = (fusb302_tcpm_get_message fuel c).1 in (is_returned r ≡ true) × (is_sound r ≡ true)
unfolding fusb302_tcpm_get_message is_returned is_sound
get_message-returns fuel zero c h k =
    let q : (fusb302_rx_fifo_is_empty c).1 ≡ true =
      (is_empty-asked c).2 ∙ ap (λ i. has (c.bus.answer i) status1_rx_empty) (omega arith) ∙ k in
    rw (q) (refl, refl)
get_message-returns fuel (suc n) c h k =
    let e = fusb302_rx_fifo_is_empty c in
    let re = is_empty-asked c in
    let a : e.0.bus.asked + 7 + 8 * n ≡ c.bus.asked + 8 * suc n = omega (arith, re.0) in
    let k2 : has (e.0.bus.answer (e.0.bus.asked + 7 + 8 * n)) status1_rx_empty ≡ true =
      rw (re.1, a) k in
    elim (Bool-cases e.1) [
      | inl q ↦ rw (q) (refl, refl)
      | inr q ↦
          rw (q) (receive_loop-returns fuel n e.0 (omega arith) k2, receive_loop-is_sound fuel e.0)
    ]
