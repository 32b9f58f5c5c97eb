-- ===== src/Examples/Commands.antt =====
-- The console command at concrete inputs.
use noa_esp32_pd.Base.{
  ℕ, ◌+◌, ◌-◌, ◌*◌, leb, ◌==◌, ◌&&◌, true, false, if◌then◌else◌, ◌≡◌, refl, ◌⊎◌, List, [], ◌∷◌,
  arith,
}
use noa_esp32_pd.Base.Int.{ℤ, pos, negsuc}
use noa_esp32_pd.Fusb302.Chip.{Chip}
use noa_esp32_pd.Protocol.Port.{VdmState, TcpmDrv, Port}
use noa_esp32_pd.Host.Flash.{vdm_pending}
use noa_esp32_pd.Host.Delivery.{message, queued}
use noa_esp32_pd.Console.Text.{codes}
use noa_esp32_pd.Console.State.{CmdResult, Outcome, fault, returns, Console}
use noa_esp32_pd.Console.Flashing.{remote_flashing}
use noa_esp32_pd.Console.Command.{command_pd}
use noa_esp32_pd.Console.Refused.{command_pd-refused}
use noa_esp32_pd.Console.Words.{flash_line, remote_flashing-queues, remote_flashing-overruns}
use noa_esp32_pd.Sketch.{power_on_port, fusb302_tcpm_drv}
use noa_esp32_pd.Examples.Drivers.{quiet_bus, counting}

-- Decimal digits, and what follows them.
abbrev digits : ℕ → List ℕ → ℕ × List ℕ
digits n [] = (n, [])
digits n (c ∷ rest) =
    let r = digits (n * 10 + (c - 48)) rest in if leb 48 c && leb c 57 then r else (n, c ∷ rest)

abbrev negated : ℕ × List ℕ → ℤ × List ℕ
negated (n, rest) = ((if n == 0 then pos 0 else negsuc (n - 1)), rest)

abbrev strtoi : List ℕ → ℤ × List ℕ
strtoi [] = (pos 0, [])
strtoi (c ∷ rest) =
    let r = digits 0 (c ∷ rest) in if c == 45 then negated (digits 0 rest) else (pos r.0, r.1)

abbrev drv : TcpmDrv Chip
drv = fusb302_tcpm_drv 3

abbrev console : Console Chip
console = record {
  port = power_on_port quiet_bus counting;
  comm_enabled = true;
  debug_level = pos 0;
  flash_offset = 0;
}

abbrev command : List (List ℕ) → Outcome (Console Chip × CmdResult)
command argv = command_pd drv strtoi (λ w. w) (λ w. w) (λ w. w) 3 20 80 argv console

abbrev bare_swap : List (List ℕ)
bare_swap = codes "pd" ∷ codes "0" ∷ codes "swap" ∷ []

swap_needs_more : command bare_swap ≡ returns (console, CmdResult.param_count)
unfolding command_pd
swap_needs_more = refl

command_pd-refused_example : (CmdResult.param_count ≡ CmdResult.ok) ⊎ (console ≡ console)
command_pd-refused_example =
    command_pd-refused drv strtoi (λ w. w) (λ w. w) (λ w. w) 3 20 80 bare_swap console console
      CmdResult.param_count swap_needs_more

-- The check of the number of the port lets a negative one pass.
negative_port : command (codes "pd" ∷ codes "-1" ∷ codes "tx" ∷ []) ≡ fault
unfolding command_pd
negative_port = refl

-- The other tasks send what is queued.
abbrev send_it : Port Chip → Port Chip
send_it w = record w { vdm_state = VdmState.vdm_done }

over : vdm_pending VdmState.vdm_done ≡ false
unfolding vdm_pending
over = refl

abbrev flashed : Port Chip
flashed = message (0x12345678 ∷ 0xdeadbeef ∷ []) 2 console.port

remote_flashing-queues_example :
    (remote_flashing send_it strtoi 2
        (flash_line false (codes "pd") (codes "0") (codes "flash") (0x12345678 ∷ 0xdeadbeef ∷ []))
        console
      ≡ returns (record console { port = send_it flashed; flash_offset = 0 + 2 * 4 }, CmdResult.ok))
    × (queued flashed ≡ 0x12345678 ∷ 0xdeadbeef ∷ [])
remote_flashing-queues_example =
    remote_flashing-queues send_it strtoi 0 false (codes "pd") (codes "0") (codes "flash")
      0x12345678 (0xdeadbeef ∷ []) console (omega arith, (omega arith, tt)) (omega arith) refl refl
      over

abbrev six_more : List ℕ
six_more = 2 ∷ 3 ∷ 4 ∷ 5 ∷ 6 ∷ 7 ∷ []

remote_flashing-overruns_example :
    remote_flashing send_it strtoi 3
      (flash_line true (codes "pd") (codes "0") (codes "flash") (1 ∷ six_more))
      console
    ≡ fault
remote_flashing-overruns_example =
    remote_flashing-overruns send_it strtoi 3 true (codes "pd") (codes "0") (codes "flash") 1
      six_more console
      (
        omega arith,
        (
          omega arith,
          (omega arith, (omega arith, (omega arith, (omega arith, (omega arith, tt))))),
        ),
      )
      refl refl
