-- ===== src/Host/Locked.antt =====
-- NOA_ESP32_PD/usb_pd_protocol.cpp: a host that has disabled `pd_control` cannot reach the port.
use noa_esp32_pd.Base.{
  taken, ℕ, leb, Bool, true, false, if◌then◌else◌, ◌≡◌, refl, sym, ap, ◌∙◌, List, [], ◌∷◌,
}
use noa_esp32_pd.Protocol.Port.{TcpmDrv, Port}
use noa_esp32_pd.Host.Result.{EcResult}
use noa_esp32_pd.Host.Control.{PdControl, Controlled, run_control, pd_control}

-- A list of commands, each with its chip.
unfoldable pub run_commands :
    {S : Type 0} (drv : TcpmDrv S) (others : Port S → Port S) (has_power_mode : Bool)
    → List (ℕ × PdControl)
    → Controlled S
    → Controlled S
run_commands drv others has_power_mode [] c = c
run_commands drv others has_power_mode ((chip, subcmd) ∷ rest) c =
    run_commands drv others has_power_mode rest
      (pd_control drv others has_power_mode chip subcmd c).0

module _ {S : Type 0} (drv : TcpmDrv S) (others : Port S → Port S) (has_power_mode : Bool) where
  either_keeps :
      (b : Bool) (x y : Controlled S × EcResult) (c : Controlled S)
      → x.0 ≡ c
      → y.0 ≡ c
      → (if b then x else y).0 ≡ c
  either_keeps true x y c h k = h
  either_keeps false x y c h k = k

  -- A command once `pd_control` is disabled: the second guard stops what the first lets pass.
  refused_keeps :
      (chip : ℕ) (c : Controlled S) (r : Controlled S × EcResult)
      → c.disabled ≡ true
      → (if leb 1 chip
          then (c, EcResult.invalid_param)
          else if c.disabled
          then (c, EcResult.access_denied)
          else r).0
        ≡ c
  refused_keeps chip c r h =
      let second = if c.disabled then (c, EcResult.access_denied) else r in
      either_keeps (leb 1 chip) (c, EcResult.invalid_param) second c refl
        (ap (λ q. q.0) (taken c.disabled (c, EcResult.access_denied) r h))

  locked_step :
      (chip : ℕ) (subcmd : PdControl) (c : Controlled S)
      → c.disabled ≡ true
      → (pd_control drv others has_power_mode chip subcmd c).0 ≡ c
  unfolding pd_control
  locked_step chip PdControl.disable c h =
      either_keeps (leb 1 chip) (c, EcResult.invalid_param)
        (record c { disabled = true }, EcResult.success) c refl
        (ap (λ d. record c { disabled = d }) (sym h))
  locked_step chip subcmd c h =
      refused_keeps chip c (run_control drv others has_power_mode subcmd c) h

  locked_run :
      (rest : List (ℕ × PdControl)) (c : Controlled S)
      → c.disabled ≡ true
      → run_commands drv others has_power_mode rest c ≡ c
  unfolding run_commands
  locked_run [] c h = refl
  locked_run ((chip, subcmd) ∷ rest) c h =
      ap (run_commands drv others has_power_mode rest) (locked_step chip subcmd c h)
      ∙ locked_run rest c h

  -- After DISABLE for the port, no list of commands, for it or for another chip, changes the port,
  -- whether it communicates, or the lock, whatever the other tasks do while a command waits.
  pub commands_locked :
      (rest : List (ℕ × PdControl)) (c : Controlled S)
      → run_commands drv others has_power_mode ((0, PdControl.disable) ∷ rest) c
        ≡ record c { disabled = true }
  unfolding run_commands pd_control
  commands_locked rest c = locked_run rest (record c { disabled = true }) refl
