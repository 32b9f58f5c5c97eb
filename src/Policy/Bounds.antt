-- ===== src/Policy/Bounds.antt =====
-- NOA_ESP32_PD/usb_pd_policy.cpp: the power that a request asks for against the power that was
-- offered.
use noa_esp32_pd.Base.{
  ℕ, ◌+◌, ◌*◌, ◌/◌, ◌%◌, ◌^◌, ◌≤◌, ◌<◌, bit_and, ltb, ◌==◌, ◌≡◌, refl, List, get_or, arith, true,
  false, Bool, Bool-cases, inl, inr, if◌then◌else◌,
}
use native.Mathlib.Nat.{mul-le-mul_left}
use noa_esp32_pd.Base.Bits.Fields.{bit_and_mask}
use noa_esp32_pd.Fusb302.Chip.{success}
use noa_esp32_pd.Message.Objects.{rdo_pos, pdo_type, pdo_type_battery, rdo_fixed, rdo_cap_mismatch}
use noa_esp32_pd.Message.Layout.{rdo_fixed_fields}
use noa_esp32_pd.Policy.Power.{
  pd_extract_pdo_power, check_requested_voltage, pd_board_check_request, min_ull, int_mul,
}
use noa_esp32_pd.Policy.Request.{request_of}

div_mul-le : (n d : ℕ) → n / d * d ≤ n
div_mul-le n d = omega arith

-- A quotient, or less, times the divisor.
le_div-mul : (m n d : ℕ) → m ≤ n / d → m * d ≤ n
le_div-mul m n d h = omega (arith, mul-le-mul_left d h, div_mul-le n d)

min_ull-le_right : (a b : ℕ) → min_ull a b ≤ b
min_ull-le_right a b = ground arith

-- Below 2 ^ 31 the conversion to 64 bits changes nothing.
min_ull-le_left : (a b : ℕ) → a < 2 ^ 31 → min_ull a b ≤ a
min_ull-le_left a b h = ground arith

min_ull-le_quotient : (a n d c : ℕ) → n < 2 ^ 31 → min_ull (min_ull a (n / d)) c * d ≤ n
min_ull-le_quotient a n d c h =
    let e : min_ull a (n / d) ≤ n / d = min_ull-le_right a (n / d) in
    let q : n / d ≤ n = omega arith in
    let l : min_ull (min_ull a (n / d)) c ≤ min_ull a (n / d) =
      min_ull-le_left (min_ull a (n / d)) c (omega arith) in
    le_div-mul (min_ull (min_ull a (n / d)) c) n d (omega arith)

-- What a data object yields is at most 5 A, at most 51.15 V and, in microwatts, at most 60 W.
pub power-bounds :
    (pdo : ℕ)
    → let p = pd_extract_pdo_power pdo in (p.0 ≤ 5000) × (p.1 ≤ 51150) × (p.0 * p.1 ≤ 60000000)
unfolding pd_extract_pdo_power
power-bounds pdo =
    let field = bit_and pdo 0x3ff in
    let mv = bit_and (pdo / 2 ^ 10) 0x3ff * 50 in
    let hv : mv ≤ 51150 = omega (arith, bit_and_mask 10 (pdo / 2 ^ 10)) in
    let w = min_ull (int_mul 1000 (250000 * field)) 60000 in
    let hw : w ≤ 60000 = min_ull-le_right (int_mul 1000 (250000 * field)) 60000 in
    let b = 1000 * w / mv in
    let f = min_ull (10 * field) (60000 * 1000 / mv) in
    elim (Bool-cases (mv == 0)) [
      | inl z ↦ rw (z) (omega arith, hv, omega arith)
      | inr z ↦ elim (Bool-cases (pdo_type pdo == pdo_type_battery)) [
        | inl t ↦
            rw (z, t)
              (
                min_ull-le_right b 5000,
                hv,
                omega (
                  arith,
                  le_div-mul (min_ull b 5000) (1000 * w) mv (min_ull-le_left b 5000 (omega arith)),
                ),
              )
        | inr t ↦
            rw (z, t)
              (
                min_ull-le_right f 5000,
                hv,
                min_ull-le_quotient (10 * field) (60000 * 1000) mv 5000 (omega arith),
              )
      ]
    ]

-- The current of an object that is not a battery is at most the current offered.
pub power-offered :
    (pdo : ℕ)
    → (pdo_type pdo == pdo_type_battery) ≡ false
    → (pd_extract_pdo_power pdo).0 ≤ 10 * bit_and pdo 0x3ff
unfolding pd_extract_pdo_power
power-offered pdo t =
    let field = bit_and pdo 0x3ff in
    let hf : field < 1024 = omega (arith, bit_and_mask 10 pdo) in
    let mv = bit_and (pdo / 2 ^ 10) 0x3ff * 50 in
    let q = 60000 * 1000 / mv in
    let f = min_ull (10 * field) q in
    let hl : f ≤ 10 * field = min_ull-le_left (10 * field) q (omega arith) in
    let hk : min_ull f 5000 ≤ f = min_ull-le_left f 5000 (omega arith) in
    elim (Bool-cases (mv == 0)) [ inl z ↦ rw (z) (omega arith) | inr z ↦ rw (z, t) (omega arith) ]

-- A fixed-supply request for `n`, with the mismatch flag or not.
fixed-fields :
    (mismatch : Bool) (n ma field : ℕ)
    → n < 8
    → ma ≤ 5000
    → ma ≤ 10 * field
    → let rdo = rdo_fixed n ma ma (if mismatch then rdo_cap_mismatch else 0) in
      (rdo_pos rdo ≡ n)
      × (bit_and (rdo / 2 ^ 10) 0x3ff ≤ field)
      × (bit_and rdo 0x3ff ≤ field)
      × (rdo / 2 ^ 26 % 4 ≡ (if mismatch then 1 else 0))
fixed-fields true n ma field hn hm hf =
    let e = rdo_fixed_fields n ma ma 1 (omega arith) hn (omega arith) (omega arith) in
    (e.0, omega (arith, e.1), omega (arith, e.2), e.3)
fixed-fields false n ma field hn hm hf =
    let e = rdo_fixed_fields n ma ma 0 (omega arith) hn (omega arith) (omega arith) in
    (e.0, omega (arith, e.1), omega (arith, e.2), e.3)

request_of-fixed :
    (pdo_index pdo : ℕ)
    → (pdo_type pdo == pdo_type_battery) ≡ false
    → let p = pd_extract_pdo_power pdo in
      request_of pdo_index pdo ≡ (
        rdo_fixed (pdo_index + 1) p.0 p.0 (if ltb (p.0 * p.1) 2250000 then rdo_cap_mismatch else 0),
        p.0,
        p.1,
      )
unfolding request_of
request_of-fixed pdo_index pdo t = rw (t) refl

-- The request for an object of index below 7 that is not a battery names the object by its position from 1, asks
-- for at most the current that the object offers, and carries the mismatch flag exactly when the
-- power is below 2.25 W.
pub request-fields :
    (pdo_index pdo : ℕ)
    → pdo_index < 7
    → (pdo_type pdo == pdo_type_battery) ≡ false
    → let r = request_of pdo_index pdo in
      (rdo_pos r.0 ≡ pdo_index + 1)
      × (bit_and (r.0 / 2 ^ 10) 0x3ff ≤ bit_and pdo 0x3ff)
      × (bit_and r.0 0x3ff ≤ bit_and pdo 0x3ff)
      × (r.0 / 2 ^ 26 % 4 ≡ (if ltb (r.1 * r.2) 2250000 then 1 else 0))
request-fields pdo_index pdo h t =
    let p = pd_extract_pdo_power pdo in
    let mismatch = ltb (p.0 * p.1) 2250000 in
    let b = power-bounds pdo in
    rw (request_of-fixed pdo_index pdo t) (
      fixed-fields mismatch (pdo_index + 1) p.0 (bit_and pdo 0x3ff) (omega arith) b.0
        (power-offered pdo t))

-- A source that checks a request against the capabilities that it sent accepts the request which
-- a sink builds from any of them that is among the first seven and not a battery.
pub request-accepted :
    (caps : List ℕ) (cnt pdo_index : ℕ)
    → pdo_index < cnt
    → pdo_index < 7
    → (pdo_type (get_or caps pdo_index 0) == pdo_type_battery) ≡ false
    → check_requested_voltage caps cnt (request_of pdo_index (get_or caps pdo_index 0)).0 ≡ success
unfolding check_requested_voltage pd_board_check_request
request-accepted caps cnt pdo_index hc h7 t =
    let pdo = get_or caps pdo_index 0 in
    let f = request-fields pdo_index pdo h7 t in ground (arith, f.0, f.1, f.2)
