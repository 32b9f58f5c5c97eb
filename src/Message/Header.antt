-- ===== src/Message/Header.antt =====
-- NOA_ESP32_PD/usb_pd.h: the message header macros.
use noa_esp32_pd.Base.{ℕ, ◌*◌, ◌/◌, ◌%◌, ◌^◌, bit_and, bit_or}

-- PD_HEADER, cut to the uint16_t that every caller stores it in.
unfoldable pub pd_header : ℕ → ℕ → ℕ → ℕ → ℕ → ℕ → ℕ → ℕ
pd_header type prole drole id cnt rev ext =
    bit_or
      (bit_or
        (bit_or (bit_or (bit_or (bit_or type (rev * 2 ^ 6)) (drole * 2 ^ 5)) (prole * 2 ^ 8))
          (id * 2 ^ 9))
        (cnt * 2 ^ 12))
      (ext * 2 ^ 15)
    % 2 ^ 16

-- PD_HEADER_EXT
unfoldable pub header_ext : ℕ → ℕ
header_ext header = bit_and (header / 2 ^ 15) 1

-- PD_HEADER_CNT
unfoldable pub header_cnt : ℕ → ℕ
header_cnt header = bit_and (header / 2 ^ 12) 7

-- PD_HEADER_TYPE
unfoldable pub header_type : ℕ → ℕ
header_type header = bit_and header 0xf

-- PD_HEADER_ID
unfoldable pub header_id : ℕ → ℕ
header_id header = bit_and (header / 2 ^ 9) 7

-- PD_HEADER_REV
unfoldable pub header_rev : ℕ → ℕ
header_rev header = bit_and (header / 2 ^ 6) 3
