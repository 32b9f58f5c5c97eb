-- ===== src/Message/Layout.antt =====
-- The header, request and VDM macros as arithmetic: each field comes back as it was put in.
use noa_esp32_pd.Base.{ℕ, ◌+◌, ◌*◌, ◌/◌, ◌%◌, ◌^◌, ◌<◌, bit_and, bit_or, ◌≡◌, arith}
use noa_esp32_pd.Base.Bits.Fields.{
  bit_or_fields, bit_or_low, bit_or_right_comm, bit_or_shift, bit_and_mask,
}
use noa_esp32_pd.Message.Header.{
  pd_header, header_ext, header_cnt, header_type, header_id, header_rev,
}
use noa_esp32_pd.Message.Objects.{
  rdo_pos, rdo_fixed, rdo_batt, vdo, vdo_vid, vdo_svdm, vdo_cmd, vdo_cmdt,
}

-- The header as a sum of its fields.
pub pd_header_sum :
    (type prole drole id cnt rev : ℕ)
    → type < 32
    → prole < 2
    → drole < 2
    → id < 8
    → cnt < 8
    → rev < 4
    → pd_header type prole drole id cnt rev 0
      ≡ cnt * 4096 + (id * 512 + (prole * 256 + (rev * 64 + (drole * 32 + type))))
unfolding pd_header
pd_header_sum type prole drole id cnt rev ht hp hd hi hc hr =
    rw
      (
        bit_or_right_comm type (rev * 64) (drole * 32),
        bit_or_low 5 drole type (omega arith),
        bit_or_low 6 rev (drole * 32 + type) (omega arith),
        bit_or_low 8 prole (rev * 64 + (drole * 32 + type)) (omega arith),
        bit_or_low 9 id (prole * 256 + (rev * 64 + (drole * 32 + type))) (omega arith),
        bit_or_low 12 cnt (id * 512 + (prole * 256 + (rev * 64 + (drole * 32 + type))))
            (omega arith),
        bit_or_low 15 0 (cnt * 4096 + (id * 512 + (prole * 256 + (rev * 64 + (drole * 32 + type)))))
            (omega arith),
      )
      (omega arith)

-- A header whose fields fit (a type below 16, roles of one bit, an id and a count below 8, a
-- revision below 4) gives back the type, the id, the revision and the count that it was built
-- from, and is not marked extended.
pub pd_header_fields :
    (type prole drole id cnt rev : ℕ)
    → type < 16
    → prole < 2
    → drole < 2
    → id < 8
    → cnt < 8
    → rev < 4
    → let h = pd_header type prole drole id cnt rev 0 in
      (header_type h ≡ type)
      × (header_id h ≡ id)
      × (header_rev h ≡ rev)
      × (header_cnt h ≡ cnt)
      × (header_ext h ≡ 0)
unfolding header_type header_id header_rev header_cnt header_ext
pd_header_fields type prole drole id cnt rev ht hp hd hi hc hr =
    let h = pd_header type prole drole id cnt rev 0 in
    let e = pd_header_sum type prole drole id cnt rev (omega arith) hp hd hi hc hr in
    (
      omega (arith, bit_and_mask 4 h, e),
      omega (arith, bit_and_mask 3 (h / 2 ^ 9), e),
      omega (arith, bit_and_mask 2 (h / 2 ^ 6), e),
      omega (arith, bit_and_mask 3 (h / 2 ^ 12), e),
      omega (arith, bit_and_mask 1 (h / 2 ^ 15), e),
    )

-- A fixed-supply request as a sum of its fields. `f` counts the flags in units of bit 26.
pub rdo_fixed_sum :
    (n op_ma max_ma f : ℕ)
    → f < 4
    → rdo_fixed n op_ma max_ma (f * 2 ^ 26)
      ≡ n % 8 * 2 ^ 28 + f * 2 ^ 26 + op_ma / 10 % 1024 * 2 ^ 10 + max_ma / 10 % 1024
unfolding rdo_fixed
rdo_fixed_sum n op_ma max_ma f hf =
    let a = n % 8 in
    let b = op_ma / 10 % 1024 in
    let c = max_ma / 10 % 1024 in
    rw (bit_and_mask 3 n, bit_and_mask 10 (op_ma / 10), bit_and_mask 10 (max_ma / 10))
      (ground (
        arith,
        bit_or_fields 28 a (f * 2 ^ 26) (omega arith),
        bit_or_fields 26 (a * 4 + f) (b * 2 ^ 10) (omega arith),
        bit_or_fields 10 ((a * 4 + f) * 2 ^ 16 + b) c (omega arith),
      ))

-- A fixed-supply request for a position below 8 and currents below 10.24 A gives back its
-- position, the two currents in units of 10 mA, and its flags of bits 26 and 27.
pub rdo_fixed_fields :
    (n op_ma max_ma f : ℕ)
    → f < 4
    → n < 8
    → op_ma < 10240
    → max_ma < 10240
    → let rdo = rdo_fixed n op_ma max_ma (f * 2 ^ 26) in
      (rdo_pos rdo ≡ n)
      × (bit_and (rdo / 2 ^ 10) 0x3ff ≡ op_ma / 10)
      × (bit_and rdo 0x3ff ≡ max_ma / 10)
      × (rdo / 2 ^ 26 % 4 ≡ f)
unfolding rdo_pos
rdo_fixed_fields n op_ma max_ma f hf hn ho hm =
    let rdo = rdo_fixed n op_ma max_ma (f * 2 ^ 26) in
    let e = rdo_fixed_sum n op_ma max_ma f hf in
    (
      omega (arith, bit_and_mask 3 (rdo / 2 ^ 28), e),
      omega (arith, bit_and_mask 10 (rdo / 2 ^ 10), e),
      omega (arith, bit_and_mask 10 rdo, e),
      omega (arith, e),
    )

-- A battery request keeps nothing of the maximum power in its ten low bits: they are 0.
pub rdo_batt_low : (n op_mw max_mw f : ℕ) → bit_and (rdo_batt n op_mw max_mw (f * 2 ^ 26)) 0x3ff ≡ 0
unfolding rdo_batt
rdo_batt_low n op_mw max_mw f =
    let a = bit_or (bit_and n 7 * 2 ^ 18) (f * 2 ^ 16) in
    let b = bit_and (op_mw / 250) 0x3ff in
    let c = bit_and (max_mw / 250) 0x3ff in
    ground (
      arith,
      bit_or_shift 10 (bit_and n 7 * 2 ^ 18) (f * 2 ^ 16),
      bit_or_shift 10 a b,
      bit_or_shift 10 (bit_or a b) c,
      bit_and_mask 10 (bit_or (bit_or a b) c * 2 ^ 10),
    )

-- A VDM header with a 16-bit id and a type of one bit gives back its id, its type, and the
-- command and the command type of its command word.
pub vdo_fields :
    (vid type custom : ℕ)
    → vid < 2 ^ 16
    → type < 2
    → let v = vdo vid type custom in
      (vdo_vid v ≡ vid)
      × (vdo_svdm v ≡ type)
      × (vdo_cmd v ≡ custom % 32)
      × (vdo_cmdt v ≡ custom / 64 % 4)
unfolding vdo vdo_vid vdo_svdm vdo_cmd vdo_cmdt
vdo_fields vid type custom hv ht =
    let v = vdo vid type custom in
    let c = custom % 2 ^ 15 in
    let e : v ≡ (vid * 2 + type) * 2 ^ 15 + c = ground (
      arith,
      bit_and_mask 15 custom,
      bit_or_fields 16 vid (type * 2 ^ 15) (omega arith),
      bit_or_fields 15 (vid * 2 + type) c (omega arith),
    ) in
    (
      omega (arith, e),
      omega (arith, bit_and_mask 1 (v / 2 ^ 15), e),
      omega (arith, bit_and_mask 5 v, e),
      omega (arith, bit_and_mask 2 (v / 2 ^ 6), e),
    )
