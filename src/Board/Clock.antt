-- ===== src/Board/Clock.antt =====
-- NOA_ESP32_PD/usb_pd_driver.cpp: `get_time`, and what its timestamps do.
use noa_esp32_pd.Base.{ℕ, ◌+◌, ◌*◌, ◌%◌, ◌^◌, ◌<◌, arith}

-- `t.val = millis()*1000; t.val += micros()%1000;`: the product is taken in 32 bits.
unfoldable pub get_time : ℕ → ℕ → ℕ
get_time millis micros = millis * 1000 % 2 ^ 32 + micros % 1000

-- As long as the microseconds of the later reading stay below 2 ^ 32, a timestamp is smaller than
-- one taken in a later millisecond.
pub get_time_monotone :
    (millis micros millis' micros' : ℕ)
    → millis < millis'
    → millis' * 1000 < 2 ^ 32
    → get_time millis micros < get_time millis' micros'
unfolding get_time
get_time_monotone millis micros millis' micros' h g = ground arith

-- A timestamp stays below 2 ^ 32 + 1000.
pub get_time-lt : (millis micros : ℕ) → get_time millis micros < 2 ^ 32 + 1000
unfolding get_time
get_time-lt millis micros = omega arith
