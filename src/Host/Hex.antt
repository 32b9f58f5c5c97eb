-- ===== src/Host/Hex.antt =====
-- NOA_ESP32_PD/usb_pd_protocol.cpp: reading a word in hexadecimal (CONFIG_CMD_PD_FLASH). A string is
-- the list of its characters, without the 0 that ends it.
use noa_esp32_pd.Base.{
  ℕ, ◌+◌, ◌-◌, ◌*◌, ◌%◌, ◌^◌, leb, ◌==◌, ◌&&◌, if◌then◌else◌, List, [], ◌∷◌, Option, none, some,
  length,
}

-- The digit that a character stands for: '0' is 48, 'A' 65 and 'a' 97.
unfoldable pub hex_digit : ℕ → Option ℕ
hex_digit c =
    if leb 48 c && leb c 57
    then some (c - 48)
    else if leb 65 c && leb c 70
    then some (c - 65 + 10)
    else if leb 97 c && leb c 102
    then some (c - 97 + 10)
    else none

-- The loop, with `tmp`, a word of 32 bits.
unfoldable pub hex_loop : List ℕ → ℕ → Option ℕ
unfolding hex_digit
hex_loop [] tmp = some tmp
hex_loop (c ∷ rest) tmp = elim (hex_digit c) [
  | none ↦ none
  | some d ↦ hex_loop rest ((tmp * 2 ^ 4 % 2 ^ 32 + d) % 2 ^ 32)
]

-- `none` is EC_ERROR_INVAL.
unfoldable pub hex8tou32 : List ℕ → Option ℕ
unfolding hex_loop
hex8tou32 str = elim (hex_loop str 0) [
  | none ↦ none
  | some v ↦ if length str == 8 then some v else none
]
