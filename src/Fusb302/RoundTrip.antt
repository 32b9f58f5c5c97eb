-- ===== src/Fusb302/RoundTrip.antt =====
-- NOA_ESP32_PD/FUSB302.cpp: a message that one chip is given to send, read out of the FIFO of another.
use noa_esp32_pd.Base.{
  ℕ, zero, suc, ◌+◌, ◌-◌, ◌*◌, ◌/◌, ◌%◌, ◌^◌, ◌≤◌, ◌<◌, ◌==◌, Bool, true, false, bit_and, bit_or,
  ◌≡◌, refl, ap, ◌∙◌, List, [], ◌∷◌, ◌++◌, length, take, drop, get_or, take-length_append, arith,
}
use noa_esp32_pd.Base.Bits.Fields.{bit_and_mask, bit_and_shift, bit_or_low}
use noa_esp32_pd.Wire.{
  Bus, slave_addr, begin_transmission, request_from, tcpc_xfer, write_all, read_all, wire_read,
  call,
}
use noa_esp32_pd.Message.Header.{header_cnt}
use noa_esp32_pd.Fusb302.Registers.{fifos, tkn_jamcrc, tkn_eop, tkn_txoff, tkn_txon}
use noa_esp32_pd.Fusb302.Chip.{Chip, xfer}
use noa_esp32_pd.Fusb302.Frame.{word_bytes, copy_words, get_num_bytes, message_bytes, read_packet}
use noa_esp32_pd.Fusb302.Packets.{are_words, length-word_bytes, copy-word_bytes}
use noa_esp32_pd.Fusb302.Receive.{asked-write_all, xfer-asked}

-- The bytes that Wire returns for the `n` calls from the `k`-th on.
unfoldable pub replies : (ℕ → ℕ) → ℕ → ℕ → List ℕ
replies f k zero = []
replies f k (suc n) = f k % 256 ∷ replies f (k + 1) n

read_all-replies : (n : ℕ) (b : Bus) → (read_all n b).1 ≡ replies b.answer b.asked n
unfolding read_all wire_read replies
read_all-replies zero b = refl
read_all-replies (suc n) b =
    ap (λ l. b.answer b.asked % 256 ∷ l) (read_all-replies n (wire_read b).0)

take-replies : (m n : ℕ) (f : ℕ → ℕ) (k : ℕ) → m ≤ n → take m (replies f k n) ≡ replies f k m
unfolding replies
take-replies zero n f k h = refl
take-replies (suc m) zero f k h = elim h [ ]
take-replies (suc m) (suc n) f k h =
    ap (λ l. f k % 256 ∷ l) (take-replies m n f (k + 1) (omega arith))

-- What a transfer reads.
xfer-replies :
    (out : List ℕ) (n : ℕ) (stop : Bool) (c : Chip)
    → (n == 0) ≡ false
    → (xfer out n stop c).1 ≡ replies c.bus.answer c.bus.asked n
unfolding xfer tcpc_xfer call
xfer-replies out n stop c e =
    let b = call (begin_transmission slave_addr) c.bus in
    let w = asked-write_all out b in
    let b2 = call (request_from slave_addr n stop) (write_all out b) in
    rw (e) (
      read_all-replies n b2
      ∙ ap (λ f. replies f b2.asked n) w.1
      ∙ ap (λ k. replies c.bus.answer k n) w.0)

-- A header in two bytes, put together again.
header_back :
    (header : ℕ)
    → header < 2 ^ 16
    → bit_or
        (bit_and (bit_and header 0xff) 0xff)
        (bit_and (bit_and (header / 2 ^ 8) 0xff * 2 ^ 8) 0xff00)
      ≡ header
header_back header h =
    let x = header % 256 in
    let y = header / 256 in
    ground (
      arith,
      bit_and_mask 8 header,
      bit_and_mask 8 x,
      bit_and_mask 8 y,
      bit_and_shift 8 y 255,
      bit_or_low 8 y x (omega arith),
    )

take-all : {A : Type 0} (xs : List A) → take (length xs) xs ≡ xs
take-all [] = refl
take-all (x ∷ xs) = ap (λ l. x ∷ l) (take-all xs)

-- A message that a driver sends is what another driver reads: the sender appends `message_bytes` to
-- the ordered set that starts its buffer, and the reader's Wire returns, after the byte of a token,
-- the bytes of the message that follow the sender's token, as many as the header and the objects
-- take, and any bytes after them. Then `read_packet` gives the header, and its bytes, copied over a
-- payload, give the objects and leave the words behind them. The header has 16 bits, the objects are
-- words of 32 bits, as many as the header counts, and the payload has room for them.
pub sent-received :
    (header : ℕ) (ws payload : List ℕ) (c : Chip)
    → header < 2 ^ 16
    → header_cnt header ≡ length ws
    → are_words ws ≡ true
    → length ws ≤ length payload
    → replies c.bus.answer (c.bus.asked + 1) (suc (suc (4 * header_cnt header)))
      ≡ take (suc (suc (4 * header_cnt header))) (drop 1 (message_bytes header ws))
    → let p = (read_packet c).1 in
      (p.0 ≡ header) × (copy_words p.1 payload ≡ ws ++ drop (length ws) payload)
unfolding read_packet message_bytes get_num_bytes replies
sent-received header ws payload c hh hc hw hl same =
    let a = c.bus.answer in
    let k = c.bus.asked in
    let bytes = word_bytes ws in
    let tail = tkn_jamcrc ∷ tkn_eop ∷ tkn_txoff ∷ tkn_txon ∷ [] in
    let n = 4 * header_cnt header in
    let h0 = bit_and header 0xff in
    let h1 = bit_and (header / 2 ^ 8) 0xff in
    let mk = λ (x y : ℕ). bit_or (bit_and x 0xff) (bit_and (y * 2 ^ 8) 0xff00) in
    let r1 = xfer (fifos ∷ []) 0 false c in
    let r2 = xfer [] 3 true r1.0 in
    let e1 = xfer-asked (fifos ∷ []) 0 false c in
    let e2 = xfer-asked [] 3 true r1.0 in
    let head = (read_packet c).1.0 in
    let len = header_cnt head * 4 + 2 - 2 in
    let r3 = xfer [] (len + 4) true r2.0 in
    let first : r2.1 ≡ replies a k 3 =
      xfer-replies [] 3 true r1.0 refl
      ∙ ap (λ f. replies f r1.0.bus.asked 3) e1.1
      ∙ ap (λ j. replies a j 3) (e1.0 ∙ omega arith) in
    let is_head : head ≡ header =
      ap (λ l. mk (get_or l 1 0) (get_or l 2 0)) first
      ∙ ap (λ x. mk x (a (k + 1 + 1) % 256)) (ap (λ l. get_or l 0 0) same)
      ∙ ap (λ y. mk h0 y) (ap (λ l. get_or l 1 0) same)
      ∙ header_back header hh in
    let some_left : (len + 4 == 0) ≡ false = ground arith in
    let size : header_cnt header * 4 + 2 - 2 ≡ length bytes =
      omega (arith, hc, length-word_bytes ws) in
    let total : n ≡ length bytes = omega (arith, hc, length-word_bytes ws) in
    let len_is : len ≡ n = ap (λ h. header_cnt h * 4 + 2 - 2) is_head ∙ omega arith in
    let from : r2.0.bus.asked ≡ k + 1 + 1 + 1 = omega (arith, e1.0, e2.0) in
    let sent : take n (take (header_cnt header * 4 + 2 - 2) bytes ++ tail) ≡ bytes =
      ap (λ m. take n (take m bytes ++ tail)) size
      ∙ ap (λ l. take n (l ++ tail)) (take-all bytes)
      ∙ ap (λ m. take m (bytes ++ tail)) total
      ∙ take-length_append bytes tail in
    let got : take len r3.1 ≡ bytes =
      ap (λ l. take len l) (xfer-replies [] (len + 4) true r2.0 some_left)
      ∙ take-replies len (len + 4) r2.0.bus.answer r2.0.bus.asked (omega arith)
      ∙ ap (λ f. replies f r2.0.bus.asked len) (e2.1 ∙ e1.1)
      ∙ ap (λ j. replies a j len) from
      ∙ ap (λ m. replies a (k + 1 + 1 + 1) m) len_is
      ∙ ap (λ l. drop 2 l) same
      ∙ sent in
    (is_head, ap (λ l. copy_words l payload) got ∙ copy-word_bytes ws payload hw hl)
