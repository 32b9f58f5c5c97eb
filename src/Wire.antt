-- ===== src/Wire.antt =====
-- NOA_ESP32_PD/tcpm_driver.cpp: register access over I2C. The Arduino library Wire is not part of
-- the repository: a call of it is recorded, newest first, and what `Wire.read` returns is given
-- by `answer`, one value for each call. Every theorem ranges over the answers. An int is its
-- 32-bit pattern, so that the -1 of a failed `Wire.read` is 0xffff_ffff.
use noa_esp32_pd.Base.{
  ℕ, zero, suc, ◌+◌, ◌%◌, ◌/◌, ◌*◌, ◌^◌, bit_or, Bool, true, false, List, [], ◌∷◌, ◌==◌,
  if◌then◌else◌,
}

-- A call of the Arduino library that the code makes: of Wire, or of `delayMicroseconds`.
pub data IoCall : Type 0 where
  begin_transmission : ℕ → IoCall
  write : ℕ → IoCall
  end_transmission : Bool → IoCall
  request_from : ℕ → ℕ → Bool → IoCall
  delay_us : ℕ → IoCall

pub record Bus : Type 0 where
  pub sent : List IoCall
  pub answer : ℕ → ℕ
  pub asked : ℕ

abbrev pub slave_addr : ℕ
slave_addr = 0x22

-- One call.
unfoldable pub call : IoCall → Bus → Bus
call c b = record b { sent = c ∷ b.sent }

unfoldable pub wire_read : Bus → Bus × ℕ
wire_read b = (record b { asked = b.asked + 1 }, b.answer b.asked)

-- A whole register write, as it stands in the record of calls.
abbrev pub written : ℕ → ℕ → List IoCall → List IoCall
written reg val l =
    end_transmission true
    ∷ write (val % 256)
    ∷ write (reg % 256)
    ∷ begin_transmission slave_addr
    ∷ l

-- The request of a register read.
abbrev pub requested : ℕ → List IoCall → List IoCall
requested reg l =
    request_from slave_addr 1 true
    ∷ end_transmission false
    ∷ write (reg % 256)
    ∷ begin_transmission slave_addr
    ∷ l

-- The function always returns 0.
unfoldable pub tcpc_write : ℕ → ℕ → Bus → Bus
unfolding call
tcpc_write reg val b =
    call (end_transmission true)
      (call (write (val % 256)) (call (write (reg % 256)) (call (begin_transmission slave_addr) b)))

unfoldable pub tcpc_write16 : ℕ → ℕ → Bus → Bus
unfolding call
tcpc_write16 reg val b = call (end_transmission true) (
    call (write (val / 2 ^ 8 % 256)) (
      call (write (val % 256)) (call (write (reg % 256)) (call (begin_transmission slave_addr) b))))

-- The value that `*val` receives; the function always returns 0.
unfoldable pub tcpc_read : ℕ → Bus → Bus × ℕ
unfolding call wire_read
tcpc_read reg b = wire_read (
    call (request_from slave_addr 1 true) (
      call (end_transmission false)
        (call (write (reg % 256)) (call (begin_transmission slave_addr) b))))

unfoldable pub tcpc_read16 : ℕ → Bus → Bus × ℕ
unfolding call wire_read
tcpc_read16 reg b =
    let b1 = call (request_from slave_addr 1 true) (
      call (end_transmission false)
        (call (write (reg % 256)) (call (begin_transmission slave_addr) b))) in
    let r1 = wire_read b1 in let r2 = wire_read r1.0 in (r2.0, bit_or r1.1 (r2.1 * 2 ^ 8 % 2 ^ 32))

-- `for (; out_size>0; out_size--) Wirewrite(*out++)`
unfoldable pub write_all : List ℕ → Bus → Bus
unfolding call
write_all [] b = b
write_all (x ∷ xs) b = write_all xs (call (write x) b)

-- `for (; in_size>0; in_size--) *in++ = Wireread()`, into bytes.
unfoldable pub read_all : ℕ → Bus → Bus × List ℕ
unfolding wire_read
read_all zero b = (b, [])
read_all (suc n) b =
    let r = wire_read b in let rest = read_all n r.0 in (rest.0, r.1 % 256 ∷ rest.1)

-- `flags & I2C_XFER_STOP`
unfoldable pub tcpc_xfer : List ℕ → ℕ → Bool → Bus → Bus × List ℕ
unfolding call write_all read_all
tcpc_xfer out in_size stop b =
    let b1 = write_all out (call (begin_transmission slave_addr) b) in
    if in_size == 0
    then (call (end_transmission stop) b1, [])
    else read_all in_size (call (request_from slave_addr in_size stop) b1)
