-- ===== src/Examples/Discovery.antt =====
-- The theorems on the discovery of alternate modes, and on pins, at concrete inputs.
use noa_esp32_pd.Base.{
  ℕ, zero, suc, ◌+◌, ◌/◌, ◌%◌, ◌^◌, ◌<◌, ◌==◌, ◌&&◌, true, Bool-cases, inl, inr, false,
  if◌then◌else◌, ◌≡◌, ◌⊎◌, refl, arith, List, [], ◌∷◌, none, some, length, drop,
}
use noa_esp32_pd.Base.Bits.{has, bit, has-bit}
use noa_esp32_pd.Message.Modes.{
  svid_svid0, svid_svid1, dp_pin_caps, dpsts_mf_pref, mode_dp_pin_mf_mask, mode_dp_pin_br2_mask,
}
use noa_esp32_pd.AltMode.State.{Policy, zero_policy}
use noa_esp32_pd.AltMode.Discovery.{dfp_consume_svids}
use noa_esp32_pd.AltMode.DisplayPort.{slow_pins, usable_pins, pin_mode}
use noa_esp32_pd.AltMode.Svids.{
  announced, store_svids, consume_svids-stores, consume_svids-overruns,
}
use noa_esp32_pd.AltMode.ModeCount.{Outcome, answers, answers-overrun}
use noa_esp32_pd.AltMode.Pins.{is_cd, FindsBit, pin_mode-chooses}

-- DisplayPort and one vendor's mode, then the end.
abbrev two_svids : List ℕ
two_svids = 0 ∷ 0xff018087 ∷ 0 ∷ []

two_announced : announced (drop 1 two_svids) ≡ 0xff01 ∷ 0x8087 ∷ []
unfolding announced svid_svid0 svid_svid1
two_announced = refl

consume_svids-stores_example :
    let new = announced (drop 1 two_svids) in
    dfp_consume_svids two_svids zero_policy
    ≡ some (record zero_policy {
      svid_cnt = 0 + length new;
      svids = store_svids 0 new zero_policy.svids;
    })
consume_svids-stores_example =
    consume_svids-stores two_svids zero_policy refl (rw (two_announced) (omega arith))
      (rw (two_announced) (omega arith))

abbrev no_end : List ℕ
no_end = 0 ∷ 0xff018087 ∷ []

all_announced : length (announced (drop 1 no_end)) ≡ 2
unfolding announced svid_svid0 svid_svid1
all_announced = refl

consume_svids-overruns_example : dfp_consume_svids no_end zero_policy ≡ none
consume_svids-overruns_example =
    consume_svids-overruns no_end zero_policy refl (omega arith) all_announced

-- 15 answers were taken; two more are one too many.
abbrev nearly_done : Policy
nearly_done = record zero_policy { svid_idx = 15 }

abbrev two_answers : List (ℕ × List ℕ)
two_answers = (2, 0 ∷ 0xc05 ∷ []) ∷ (2, 0 ∷ 0x405 ∷ []) ∷ []

answers-overrun_example : Outcome 15 2 (answers two_answers nearly_done)
answers-overrun_example = answers-overrun two_answers nearly_done refl (omega arith)

-- The lowest bit that is set.
abbrev lowest : ℕ → ℕ → ℕ
lowest zero x = 0
lowest (suc n) x = if x % 2 == 1 then 0 else suc (lowest n (x / 2))

bit-lowest : (n x : ℕ) → x < 2 ^ n → (x == 0) ≡ false → (bit (lowest n x) x ≡ 1) × (lowest n x < n)
unfolding bit
bit-lowest zero x h e = absurd (ground arith)
bit-lowest (suc n) x h e = elim (Bool-cases (x % 2 == 1)) [
  | inl o ↦ rw (o) (ground arith, omega arith)
  | inr o ↦
      let b = bit-lowest n (x / 2) (ground arith) (ground arith) in rw (o) (b.0, omega (arith, b.1))
]

lowest-FindsBit : FindsBit (lowest 32)
lowest-FindsBit x h e = let b = bit-lowest 32 x h e in (rw (has-bit (lowest 32 x) x, b.0) refl, b.1)

-- A receptacle with the pins C, D and E, and a status that prefers multi-function.
pin_mode-chooses_example :
    let r = pin_mode (lowest 32) (usable_pins 0x1c0040 0x10) in
    ((usable_pins 0x1c0040 0x10 ≡ 0) × (r ≡ 0))
    ⊎ ((has (dp_pin_caps 0x1c0040) r ≡ true)
        × (has mode_dp_pin_br2_mask r ≡ false)
        × (((dpsts_mf_pref 0x10 == 0) && has mode_dp_pin_mf_mask r) ≡ false)
        × ((is_cd (slow_pins 0x1c0040 0x10) && has 0x30 r) ≡ false))
pin_mode-chooses_example = pin_mode-chooses (lowest 32) lowest-FindsBit 0x1c0040 0x10
