-- ===== src/Host/HexDigits.antt =====
-- NOA_ESP32_PD/usb_pd_protocol.cpp: `hex8tou32` reads back what is printed.
use noa_esp32_pd.Base.{
  ℕ, zero, suc, ◌+◌, ◌*◌, ◌/◌, ◌%◌, ◌^◌, ◌<◌, ltb, ◌==◌, Bool, if◌then◌else◌, ◌≡◌, refl, ap, ◌∙◌,
  List, [], ◌∷◌, ◌++◌, length-append, Option, none, some, length, arith,
}
use native.Mathlib.Nat.{pow-suc}
use noa_esp32_pd.Host.Hex.{hex_digit, hex_loop, hex8tou32}

-- The character of a digit, in upper or lower case.
abbrev pub hex_char : Bool → ℕ → ℕ
hex_char upper d = if ltb d 10 then 48 + d else if upper then 55 + d else 87 + d

-- The last `n` digits of a number, the first of them first.
abbrev pub print_hex : Bool → ℕ → ℕ → List ℕ
print_hex upper zero v = []
print_hex upper (suc n) v = print_hex upper n (v / 16) ++ hex_char upper (v % 16) ∷ []

digit_char : (upper : Bool) (d : ℕ) → d < 16 → hex_digit (hex_char upper d) ≡ some d
unfolding hex_digit
digit_char upper d h = ground arith

pub length-print_hex : (upper : Bool) (n v : ℕ) → length (print_hex upper n v) ≡ n
length-print_hex upper zero v = refl
length-print_hex upper (suc n) v =
    length-append (print_hex upper n (v / 16)) (hex_char upper (v % 16) ∷ [])
    ∙ omega (arith, length-print_hex upper n (v / 16))

-- A first character in front of what holds of the rest.
one_before :
    (x : ℕ) (o : Option ℕ) (xs ys : List ℕ) (tmp a b : ℕ)
    → hex_digit x ≡ o
    → ((t : ℕ) → hex_loop xs t ≡ some a → hex_loop ys t ≡ some b)
    → hex_loop (x ∷ xs) tmp ≡ some a
    → hex_loop (x ∷ ys) tmp ≡ some b
unfolding hex_loop
one_before x none xs ys tmp a b e f h = ground (arith, e)
one_before x (some d) xs ys tmp a b e f h =
    ground (arith, e, f ((tmp * 2 ^ 4 % 2 ^ 32 + d) % 2 ^ 32))

-- One more character behind those that were read.
loop_one_more :
    (xs : List ℕ) (c tmp a d : ℕ)
    → hex_loop xs tmp ≡ some a
    → hex_digit c ≡ some d
    → hex_loop (xs ++ c ∷ []) tmp ≡ some ((a * 2 ^ 4 % 2 ^ 32 + d) % 2 ^ 32)
unfolding hex_loop
loop_one_more [] c tmp a d h g = ground arith
loop_one_more (x ∷ xs) c tmp a d h g =
    one_before x (hex_digit x) xs (xs ++ c ∷ []) tmp a ((a * 2 ^ 4 % 2 ^ 32 + d) % 2 ^ 32) refl
      (λ t q. loop_one_more xs c t a d q g) h

loop_print :
    (upper : Bool) (n v : ℕ) → v < 16 ^ n → v < 2 ^ 32 → hex_loop (print_hex upper n v) 0 ≡ some v
unfolding hex_loop
loop_print upper zero v h g = ground arith
loop_print upper (suc n) v h g =
    let r = loop_print upper n (v / 16) (omega (arith, pow-suc 16 n)) (omega arith) in
    let c = digit_char upper (v % 16) (omega arith) in
    let k : (v / 16 * 2 ^ 4 % 2 ^ 32 + v % 16) % 2 ^ 32 ≡ v = omega arith in
    loop_one_more (print_hex upper n (v / 16)) (hex_char upper (v % 16)) 0 (v / 16) (v % 16) r c
    ∙ ap some k

-- A word of 32 bits that is printed as `n` hexadecimal digits, which are enough for it, in upper or
-- in lower case, is read back where `n` is 8, and refused else.
pub hex8tou32-print_hex :
    (upper : Bool) (n v : ℕ)
    → v < 16 ^ n
    → v < 2 ^ 32
    → hex8tou32 (print_hex upper n v) ≡ (if n == 8 then some v else none)
unfolding hex8tou32
hex8tou32-print_hex upper n v h g =
    rw (hex8tou32, loop_print upper n v h g, length-print_hex upper n v) refl
