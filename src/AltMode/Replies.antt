-- ===== src/AltMode/Replies.antt =====
-- NOA_ESP32_PD/usb_pd_policy.cpp: how `pd_svdm` answers a command that the partner initiates.
use noa_esp32_pd.Base.{
  ℕ, zero, suc, ◌+◌, ◌-◌, ◌*◌, ◌/◌, ◌%◌, ◌^◌, ◌<◌, min, max, ◌==◌, false, ◌≡◌, refl, ◌∙◌, ap, List,
  ◌∷◌, none, some, drop, bit_or, bit_and, subst, if◌then◌else◌, arith,
}
use noa_esp32_pd.Base.Bits.{clear_bits, bit, bit-lt, bit-bit_or, bit-bit_and}
use noa_esp32_pd.Base.Bits.Fields.{bit_and_mask}
use noa_esp32_pd.Base.Int.{ℤ, pos, negsuc}
use noa_esp32_pd.Message.Objects.{vdo_cmd, vdo_cmdt, vdo_cmdt_mask}
use noa_esp32_pd.Message.Modes.{vdo_cmdt_bits}
use noa_esp32_pd.Message.Types.Vdm as Cmd
use noa_esp32_pd.AltMode.State.{MessageFunc, Board, Dfp}
use noa_esp32_pd.AltMode.Svdm.{
  svdm_func, run_func, svdm_init, pd_svdm, reply_type, reply_size, mark,
}

-- The header of an answer: the command type is replaced.
abbrev pub answered : ℕ → ℕ → ℕ
answered head type = bit_or (clear_bits head vdo_cmdt_mask) (vdo_cmdt_bits type)

abbrev rest_mask : ℕ
rest_mask = 2 ^ 32 - 1 - vdo_cmdt_mask

bit-answered :
    (k head type : ℕ)
    → bit k (answered head type) ≡ max (min (bit k head) (bit k rest_mask)) (bit k (type * 2 ^ 6))
unfolding clear_bits
bit-answered k head type =
    bit-bit_or k (bit_and head rest_mask) (type * 2 ^ 6)
    ∙ ap (λ x. max x (bit k (type * 2 ^ 6))) (bit-bit_and k head rest_mask)

-- The digits of the command, which the mask keeps, and of the command type, which it drops.
mask_bits :
    (bit 0 rest_mask ≡ 1)
    × (bit 1 rest_mask ≡ 1)
    × (bit 2 rest_mask ≡ 1)
    × (bit 3 rest_mask ≡ 1)
    × (bit 4 rest_mask ≡ 1)
    × (bit 6 rest_mask ≡ 0)
    × (bit 7 rest_mask ≡ 0)
unfolding bit
mask_bits = (refl, refl, refl, refl, refl, refl, refl)

type_bits :
    (t : ℕ)
    → (bit 0 (t * 2 ^ 6) ≡ 0)
      × (bit 1 (t * 2 ^ 6) ≡ 0)
      × (bit 2 (t * 2 ^ 6) ≡ 0)
      × (bit 3 (t * 2 ^ 6) ≡ 0)
      × (bit 4 (t * 2 ^ 6) ≡ 0)
      × (bit 6 (t * 2 ^ 6) ≡ t % 2)
      × (bit 7 (t * 2 ^ 6) ≡ t / 2 % 2)
unfolding bit
type_bits t = omega arith

by_bits :
    (v : ℕ)
    → (v % 32 ≡ bit 0 v + 2 * bit 1 v + 4 * bit 2 v + 8 * bit 3 v + 16 * bit 4 v)
      × (v / 64 % 4 ≡ bit 6 v + 2 * bit 7 v)
unfolding bit
by_bits v = omega arith

same_bit :
    (k head type : ℕ)
    → bit k rest_mask ≡ 1
    → bit k (type * 2 ^ 6) ≡ 0
    → bit k (answered head type) ≡ bit k head
same_bit k head type m t = ground (arith, bit-answered k head type, bit-lt k head)

new_bit :
    (k head type : ℕ) → bit k rest_mask ≡ 0 → bit k (answered head type) ≡ bit k (type * 2 ^ 6)
new_bit k head type m = ground (arith, bit-answered k head type)

-- An answer has the command of the message that it answers, and its own command type.
answered_fields :
    (head type : ℕ)
    → type < 4
    → (vdo_cmd (answered head type) ≡ vdo_cmd head) × (vdo_cmdt (answered head type) ≡ type)
unfolding vdo_cmd vdo_cmdt
answered_fields head type h =
    let a = answered head type in
    let m = mask_bits in
    let t = type_bits type in
    (
      bit_and_mask 5 a
          ∙ omega (
            arith,
            by_bits a,
            by_bits head,
            same_bit 0 head type m.0 t.0,
            same_bit 1 head type m.1 t.1,
            same_bit 2 head type m.2 t.2,
            same_bit 3 head type m.3 t.3,
            same_bit 4 head type m.4 t.4,
            bit_and_mask 5 head,
          ),
      bit_and_mask 2 (a / 2 ^ 6)
          ∙ omega (arith, by_bits a, new_bit 6 head type m.5, new_bit 7 head type m.6, t.5, t.6),
    )

-- A function of the board that leaves the header as it is.
abbrev pub KeepsHeader : {B : Type 0} → MessageFunc B → Type 0
KeepsHeader {B} f =
    (head : ℕ) (rest : List ℕ) (s : B)
    → (f (head ∷ rest) s).1.0 ≡ head ∷ drop 1 (f (head ∷ rest) s).1.0

reply_type-lt : (n : ℤ) → reply_type n < 4
reply_type-lt (pos zero) = omega arith
reply_type-lt (pos (suc n)) = omega arith
reply_type-lt (negsuc n) = omega arith

-- The one of three that the sign of a result chooses.
abbrev pub by_sign : {A : Type 0} → ℤ → A → A → A → A
by_sign (pos n) negative none_left positive = if n == 0 then none_left else positive
by_sign (negsuc n) negative none_left positive = negative

type_by_sign :
    (n : ℤ) → reply_type n ≡ by_sign n Cmd.cmdt_rsp_busy Cmd.cmdt_rsp_nak Cmd.cmdt_rsp_ack
type_by_sign (pos zero) = refl
type_by_sign (pos (suc n)) = let e : (suc n == 0) ≡ false = ground arith in rw (e) refl
type_by_sign (negsuc n) = refl

size_by_sign : (n : ℤ) → reply_size n ≡ by_sign n (pos 1) (pos 1) n
size_by_sign (pos zero) = refl
size_by_sign (pos (suc n)) = let e : (suc n == 0) ≡ false = ground arith in rw (e) refl
size_by_sign (negsuc n) = refl

module _ {B : Type 0} (b : Board B) where
  -- A command that the partner initiates and for which the board has no function: the answer is
  -- the message with its command, refused (NAK), one object long, and nothing changes.
  pub refused-nak :
      (cnt head : ℕ) (rest : List ℕ) (s : Dfp B)
      → vdo_cmdt head ≡ Cmd.cmdt_init
      → (vdo_cmd head == Cmd.cmd_attention) ≡ false
      → svdm_func b (vdo_cmd head) ≡ some none
      → let a = answered head Cmd.cmdt_rsp_nak in
        (pd_svdm b cnt (head ∷ rest) s ≡ some ((pos 1, a ∷ rest), s))
        × (vdo_cmd a ≡ vdo_cmd head)
        × (vdo_cmdt a ≡ Cmd.cmdt_rsp_nak)
  unfolding pd_svdm svdm_init run_func
  refused-nak cnt head rest s ht hc hf =
      let f = answered_fields head Cmd.cmdt_rsp_nak (omega arith) in
      (rw (ht, hc, hf) refl, f.0, f.1)

  answered_as :
      (cnt head : ℕ) (rest : List ℕ) (s : Dfp B) (f : MessageFunc B)
      → KeepsHeader f
      → vdo_cmdt head ≡ Cmd.cmdt_init
      → (vdo_cmd head == Cmd.cmd_attention) ≡ false
      → svdm_func b (vdo_cmd head) ≡ some (some f)
      → let r = f (clear_bits head vdo_cmdt_mask ∷ rest) s.board in
        let type = reply_type r.1.1 in
        let a = answered head type in
        (pd_svdm b cnt (head ∷ rest) s
          ≡ some ((reply_size r.1.1, a ∷ drop 1 r.1.0), record s { board = r.0 }))
        × (vdo_cmd a ≡ vdo_cmd head)
        × (vdo_cmdt a ≡ type)
  unfolding pd_svdm svdm_init run_func
  answered_as cnt head rest s f keeps ht hc hf =
      let asked = clear_bits head vdo_cmdt_mask in
      let r = f (asked ∷ rest) s.board in
      let type = reply_type r.1.1 in
      let g = answered_fields head type (reply_type-lt r.1.1) in
      let k : mark (vdo_cmdt_bits type) r.1.0 ≡ answered head type ∷ drop 1 r.1.0 =
        ap (mark (vdo_cmdt_bits type)) (keeps asked rest s.board) in
      (
        rw (ht, hc, hf) (ap (λ q. some ((reply_size r.1.1, q), record s { board = r.0 })) k),
        g.0,
        g.1,
      )

  -- A command for which the board has a function, which leaves the header as it is: the answer
  -- has the command of the message and says BUSY where the function gives a negative number, ACK
  -- where it gives a positive one and NAK where it gives 0; its size is the function's result if that
  -- is positive, and 1 if not. Of the state only the board's may change.
  pub answers-by_result :
      (cnt head : ℕ) (rest : List ℕ) (s : Dfp B) (f : MessageFunc B)
      → KeepsHeader f
      → vdo_cmdt head ≡ Cmd.cmdt_init
      → (vdo_cmd head == Cmd.cmd_attention) ≡ false
      → svdm_func b (vdo_cmd head) ≡ some (some f)
      → let r = f (clear_bits head vdo_cmdt_mask ∷ rest) s.board in
        let n = r.1.1 in
        let type = by_sign n Cmd.cmdt_rsp_busy Cmd.cmdt_rsp_nak Cmd.cmdt_rsp_ack in
        let size = by_sign n (pos 1) (pos 1) n in
        let a = answered head type in
        (pd_svdm b cnt (head ∷ rest) s ≡ some ((size, a ∷ drop 1 r.1.0), record s { board = r.0 }))
        × (vdo_cmd a ≡ vdo_cmd head)
        × (vdo_cmdt a ≡ type)
  answers-by_result cnt head rest s f keeps ht hc hf =
      let r = f (clear_bits head vdo_cmdt_mask ∷ rest) s.board in
      let P : ℕ → ℤ → Type 0 = λ type size.
        let a = answered head type in
        (pd_svdm b cnt (head ∷ rest) s ≡ some ((size, a ∷ drop 1 r.1.0), record s { board = r.0 }))
        × (vdo_cmd a ≡ vdo_cmd head)
        × (vdo_cmdt a ≡ type) in
      subst (λ t. P t (by_sign r.1.1 (pos 1) (pos 1) r.1.1)) (type_by_sign r.1.1)
        (subst (λ z. P (reply_type r.1.1) z) (size_by_sign r.1.1)
          (answered_as cnt head rest s f keeps ht hc hf))
