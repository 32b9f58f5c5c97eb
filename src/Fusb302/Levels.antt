-- ===== src/Fusb302/Levels.antt =====
-- NOA_ESP32_PD/FUSB302.cpp: what `fusb302_tcpm_get_cc` of a driver that pulls down does to the
-- switches of the chip, and what it answers.
use noa_esp32_pd.Base.{
  ℕ, ◌+◌, ◌%◌, ◌^◌, ltb, ◌==◌, ◌||◌, ◌&&◌, not, Bool, true, false, Bool-cases, inl, inr,
  if◌then◌else◌, bit_and, ◌≡◌, refl, ap, ◌∙◌, ◌∷◌, arith,
}
use noa_esp32_pd.Base.Bits.{has, set_bits, clear_bits, has-set_pow, has-clear_pow}
use noa_esp32_pd.Base.Bits.Fields.{bit_and_mask}
use noa_esp32_pd.Volt
use noa_esp32_pd.Wire.{delay_us, call, written, requested, tcpc_read, tcpc_write, wire_read}
use noa_esp32_pd.Fusb302.Registers.{switches0, status0}
use noa_esp32_pd.Fusb302.Chip.{Chip, read, write, platform_usleep}
use noa_esp32_pd.Fusb302.Sense.{
  fusb302_convert_bc_lvl, fusb302_detect_cc_pin_sink, fusb302_tcpm_get_cc, measure_bc_lvl, restore,
}

-- The voltage that the two low bits of STATUS0 stand for.
abbrev pub sink_level : ℕ → ℕ
sink_level status =
    if status % 4 == 0
    then Volt.open_line
    else if status % 4 == 1
    then Volt.snk_def
    else if status % 4 == 2
    then Volt.snk_1_5
    else Volt.snk_3_0

convert-level : (status : ℕ) → fusb302_convert_bc_lvl false (bit_and status 3) ≡ sink_level status
unfolding fusb302_convert_bc_lvl
convert-level status = ground (arith, bit_and_mask 2 status)

-- A register while one line is measured, and with one bit as it was in `before`.
abbrev pub measuring : ℕ → ℕ → ℕ → ℕ
measuring on off reg = set_bits (clear_bits reg (2 ^ off)) (2 ^ on)

abbrev pub put_back : ℕ → ℕ → ℕ → ℕ
put_back k before reg = if has before (2 ^ k) then set_bits reg (2 ^ k) else clear_bits reg (2 ^ k)

measuring_bit :
    (k on off reg : ℕ)
    → ltb k 32 ≡ true
    → ltb off 32 ≡ true
    → has (measuring on off reg) (2 ^ k) ≡ (has reg (2 ^ k) && not (k == off) || k == on)
measuring_bit k on off reg hk ho =
    rw (has-set_pow k on (clear_bits reg (2 ^ off)), has-clear_pow k off reg hk ho) refl

on_or_kept : (b e : Bool) → (b || e) ≡ (if e then true else b)
on_or_kept true true = refl
on_or_kept true false = refl
on_or_kept false true = refl
on_or_kept false false = refl

off_or_kept : (b e : Bool) → (b && not e) ≡ (if e then false else b)
off_or_kept true true = refl
off_or_kept true false = refl
off_or_kept false true = refl
off_or_kept false false = refl

put_back_bit :
    (k j before reg : ℕ)
    → ltb k 32 ≡ true
    → ltb j 32 ≡ true
    → has (put_back j before reg) (2 ^ k) ≡ (if k == j then has before (2 ^ j) else has reg (2 ^ k))
put_back_bit k j before reg hk hj = elim (Bool-cases (has before (2 ^ j))) [
  | inl e ↦ rw (e, has-set_pow k j reg) (on_or_kept (has reg (2 ^ k)) (k == j))
  | inr e ↦ rw (e, has-clear_pow k j reg hk hj) (off_or_kept (has reg (2 ^ k)) (k == j))
]

or_true : (b : Bool) → (b || true) ≡ true
or_true true = refl
or_true false = refl

off_bit : (b : Bool) → (b && false || false) ≡ false
off_bit true = refl
off_bit false = refl

same_bit : (b x y : Bool) → x ≡ false → y ≡ false → (b && not x || y) ≡ b
same_bit true x y e f = rw (e) refl
same_bit false x y e f = f

traced :
    (cc1 cc2 : ℕ) (c : Chip)
    → c.pulling_up ≡ false
    → let n = c.bus.asked in
      let a = c.bus.answer in
      let w1 = measuring 2 3 (a n) in
      let w2 = measuring 3 2 (a (n + 1 + 1)) in
      let w3 = put_back 3 (a n) (put_back 2 (a n) (a (n + 1 + 1 + 1 + 1))) in
      let r = fusb302_tcpm_get_cc cc1 cc2 c in
      (r.1 ≡ (sink_level (a (n + 1)), sink_level (a (n + 1 + 1 + 1))))
      × (r.0.bus.sent
          ≡ written switches0 w3 (
              requested switches0 (
                requested status0 (
                  delay_us 250
                  ∷ written switches0 w2 (
                      requested switches0 (
                        requested status0 (
                          delay_us 250
                          ∷ written switches0 w1 (requested switches0 c.bus.sent))))))))
unfolding fusb302_tcpm_get_cc fusb302_detect_cc_pin_sink measure_bc_lvl read write platform_usleep
    tcpc_read tcpc_write wire_read call restore
traced cc1 cc2 c h =
    let n = c.bus.asked in
    let a = c.bus.answer in
    rw (h) (
      ap (λ x. (x, fusb302_convert_bc_lvl false (bit_and (a (n + 1 + 1 + 1)) 3)))
            (convert-level (a (n + 1)))
          ∙ ap (λ y. (sink_level (a (n + 1)), y)) (convert-level (a (n + 1 + 1 + 1))),
      refl,
    )

-- A driver that pulls down measures CC1 and then CC2. Its answers are the voltages that the two
-- low bits of STATUS0 stand for, read 250 us after each switch. It writes SWITCHES0 three times:
-- bit 2 on and bit 3 off, bit 3 on and bit 2 off, and both as they were at first; any other bit `k`
-- of the 32, those of the pull-downs included, is written each time as it was read just before.
pub get_cc-levels :
    (cc1 cc2 k : ℕ) (c : Chip)
    → c.pulling_up ≡ false
    → ltb k 32 ≡ true
    → (k == 2) ≡ false
    → (k == 3) ≡ false
    → let n = c.bus.asked in
      let a = c.bus.answer in
      let w1 = measuring 2 3 (a n) in
      let w2 = measuring 3 2 (a (n + 1 + 1)) in
      let w3 = put_back 3 (a n) (put_back 2 (a n) (a (n + 1 + 1 + 1 + 1))) in
      let r = fusb302_tcpm_get_cc cc1 cc2 c in
      (r.1 ≡ (sink_level (a (n + 1)), sink_level (a (n + 1 + 1 + 1))))
      × (r.0.bus.sent
          ≡ written switches0 w3 (
              requested switches0 (
                requested status0 (
                  delay_us 250
                  ∷ written switches0 w2 (
                      requested switches0 (
                        requested status0 (
                          delay_us 250
                          ∷ written switches0 w1 (requested switches0 c.bus.sent))))))))
      × (has w1 (2 ^ 2) ≡ true)
      × (has w1 (2 ^ 3) ≡ false)
      × (has w2 (2 ^ 3) ≡ true)
      × (has w2 (2 ^ 2) ≡ false)
      × (has w3 (2 ^ 2) ≡ has (a n) (2 ^ 2))
      × (has w3 (2 ^ 3) ≡ has (a n) (2 ^ 3))
      × (has w1 (2 ^ k) ≡ has (a n) (2 ^ k))
      × (has w2 (2 ^ k) ≡ has (a (n + 1 + 1)) (2 ^ k))
      × (has w3 (2 ^ k) ≡ has (a (n + 1 + 1 + 1 + 1)) (2 ^ k))
get_cc-levels cc1 cc2 k c h hk h2 h3 =
    let n = c.bus.asked in
    let a = c.bus.answer in
    let b = a (n + 1 + 1) in
    let reg = a (n + 1 + 1 + 1 + 1) in
    let mid = put_back 2 (a n) reg in
    let t = traced cc1 cc2 c h in
    (
      t.0,
      t.1,
      measuring_bit 2 2 3 (a n) refl refl ∙ or_true (has (a n) (2 ^ 2) && true),
      measuring_bit 3 2 3 (a n) refl refl ∙ off_bit (has (a n) (2 ^ 3)),
      measuring_bit 3 3 2 b refl refl ∙ or_true (has b (2 ^ 3) && true),
      measuring_bit 2 3 2 b refl refl ∙ off_bit (has b (2 ^ 2)),
      put_back_bit 2 3 (a n) mid refl refl ∙ put_back_bit 2 2 (a n) reg refl refl,
      put_back_bit 3 3 (a n) mid refl refl,
      measuring_bit k 2 3 (a n) hk refl ∙ same_bit (has (a n) (2 ^ k)) (k == 3) (k == 2) h3 h2,
      measuring_bit k 3 2 b hk refl ∙ same_bit (has b (2 ^ k)) (k == 2) (k == 3) h2 h3,
      put_back_bit k 3 (a n) mid hk refl
          ∙ ap (λ e. if e then has (a n) (2 ^ 3) else has mid (2 ^ k)) h3
          ∙ put_back_bit k 2 (a n) reg hk refl
          ∙ ap (λ e. if e then has (a n) (2 ^ 2) else has reg (2 ^ k)) h2,
    )
