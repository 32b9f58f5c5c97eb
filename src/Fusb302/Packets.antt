-- ===== src/Fusb302/Packets.antt =====
-- NOA_ESP32_PD/FUSB302.cpp: the packets that go into and come out of the FIFOs: their lengths, the
-- data objects that they carry, and the end of the receive loop.
use noa_esp32_pd.Base.{
  ℕ, zero, suc, ◌+◌, ◌-◌, ◌*◌, ◌/◌, ◌%◌, ◌^◌, ◌≤◌, ◌<◌, ◌&&◌, Bool, true, ◌≡◌, refl, sym, ◌∙◌, List,
  [], ◌∷◌, ◌++◌, length, take, drop, ltb, length-append, length-take_le, arith, Bool-cases, inl,
  inr,
}
use noa_esp32_pd.Base.Bits.Fields.{bit_and_mask}
use noa_esp32_pd.Wire.{Bus, read_all, wire_read}
use noa_esp32_pd.Message.Header.{header_cnt}
use noa_esp32_pd.Fusb302.Registers.{tkn_jamcrc, tkn_eop, tkn_txoff, tkn_txon}
use noa_esp32_pd.Fusb302.Frame.{word_bytes, copy_words, get_num_bytes, message_bytes, sop_bytes}

pub header_cnt-lt : (header : ℕ) → header_cnt header < 8
unfolding header_cnt
header_cnt-lt header = omega (arith, bit_and_mask 3 (header / 2 ^ 12))

pub length-word_bytes : (ws : List ℕ) → length (word_bytes ws) ≡ 4 * length ws
unfolding word_bytes
length-word_bytes [] = refl
length-word_bytes (w ∷ ws) = omega (arith, length-word_bytes ws)

-- The buffer of an SOP message, address byte included, is filled with 12 bytes and 4 for each
-- data object, and so never beyond its 40 bytes, when the caller has the objects that the header
-- counts.
pub length-message :
    (header : ℕ) (data' : List ℕ)
    → header_cnt header ≤ length data'
    → let buf = sop_bytes ++ message_bytes header data' in
      (length buf ≡ 12 + 4 * header_cnt header) × (length buf ≤ 40)
unfolding message_bytes get_num_bytes
length-message header data' h =
    let n = header_cnt header * 4 + 2 - 2 in
    let e : length (take n (word_bytes data')) ≡ n =
      length-take_le n (word_bytes data') (omega (arith, length-word_bytes data')) in
    let f =
      length-append (take n (word_bytes data'))
        (tkn_jamcrc ∷ tkn_eop ∷ tkn_txoff ∷ tkn_txon ∷ []) in
    (omega (arith, e, f), omega (arith, e, f, header_cnt-lt header))

unfoldable pub are_words : List ℕ → Bool
are_words [] = true
are_words (w ∷ ws) = ltb w (2 ^ 32) && are_words ws

pub copy-word_bytes :
    (ws payload : List ℕ)
    → are_words ws ≡ true
    → length ws ≤ length payload
    → copy_words (word_bytes ws) payload ≡ ws ++ drop (length ws) payload
unfolding are_words word_bytes copy_words
copy-word_bytes [] payload hw hl = refl
copy-word_bytes (w ∷ ws) [] hw hl = ground arith
copy-word_bytes (w ∷ ws) (p ∷ payload) hw hl = elim (Bool-cases (ltb w (2 ^ 32))) [
  | inl e ↦
      (let k : are_words ws ≡ true = sym (rw (e) refl) ∙ hw in
        let v : w % 256
              + w / 2 ^ 8 % 256 * 2 ^ 8
              + w / 2 ^ 16 % 256 * 2 ^ 16
              + w / 2 ^ 24 % 256 * 2 ^ 24
            ≡ w =
          ground arith in
        rw (v, copy-word_bytes ws payload k (omega arith)) refl)
  | inr e ↦ ground arith
]

pub length-read_all : (n : ℕ) (b : Bus) → length (read_all n b).1 ≡ n
unfolding read_all
length-read_all zero b = refl
length-read_all (suc n) b = omega (arith, length-read_all n (wire_read b).0)

pub asked-read_all :
    (n : ℕ) (b : Bus)
    → ((read_all n b).0.asked ≡ b.asked + n) × ((read_all n b).0.answer ≡ b.answer)
unfolding read_all wire_read
asked-read_all zero b = (omega arith, refl)
asked-read_all (suc n) b = let r = asked-read_all n (wire_read b).0 in (omega (arith, r.0), r.1)
