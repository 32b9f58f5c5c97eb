-- ===== src/Console/Refused.antt =====
-- NOA_ESP32_PD/usb_pd_protocol.cpp: a console command that is refused changes nothing.
use noa_esp32_pd.Base.{
  arith, ℕ, ltb, Bool, true, false, if◌then◌else◌, ◌≡◌, ◌⊎◌, inl, inr, List, Option, none, some,
  length,
}
use noa_esp32_pd.Base.Int.{ℤ, is_neg}
use noa_esp32_pd.Protocol.Port.{DrpState, TcpmDrv, Port}
use noa_esp32_pd.Console.State.{
  CmdResult, Outcome, fault, unfinished, returns, ok, Console, arg, on_port,
}
use noa_esp32_pd.Console.Flashing.{put_port, send_flash, write_words, remote_flashing}
use noa_esp32_pd.Console.Command.{
  dualrole_word, set_dualrole, dualrole_command, dump_command, trysrc_command, ping_command,
  vdm_command, swap_command, comm_command, dev_command, port_command, command_pd,
}

-- A command that returns has succeeded or has changed nothing.
pub data Keeps {S : Type 0} (c : Console S) : Outcome (Console S × CmdResult) → Type 0 where
  faults : Keeps c fault
  waits : Keeps c unfinished
  succeeds : (v : Console S) → Keeps c (returns (v, ok))
  refuses : (r : CmdResult) → Keeps c (returns (c, r))

module _ {S : Type 0} where
  either :
      {x y : Outcome (Console S × CmdResult)} {c : Console S} (b : Bool)
      → Keeps c x
      → Keeps c y
      → Keeps c (if b then x else y)
  either true h k = h
  either false h k = k

  ends :
      {c v : Console S} {r : CmdResult} (o : Outcome (Console S × CmdResult))
      → Keeps c o
      → o ≡ returns (v, r)
      → (r ≡ ok) ⊎ (v ≡ c)
  ends fault h e = ground arith
  ends unfinished h e = ground arith
  ends (returns q) (succeeds w) e = inl (ground arith)
  ends (returns q) (refuses s) e = inr (ground arith)

  on_port-Keeps : (port : ℤ) (f : Port S → Port S) (v c : Console S) → Keeps c (on_port port f v)
  unfolding on_port
  on_port-Keeps port f v c = either (is_neg port) faults (succeeds _)

  set_dualrole-Keeps :
      (a b : ℕ) (o : Option DrpState) (c : Console S) → Keeps c (set_dualrole a b o c)
  unfolding set_dualrole
  set_dualrole-Keeps a b none c = refuses _
  set_dualrole-Keeps a b (some s) c = succeeds _

  dualrole_command-Keeps :
      (a b : ℕ) (argv : List (List ℕ)) (c : Console S) → Keeps c (dualrole_command a b argv c)
  unfolding dualrole_command
  dualrole_command-Keeps a b argv c =
      either (ltb (length argv) 3) (succeeds c)
        (set_dualrole-Keeps a b (dualrole_word (arg 2 argv)) c)

  put_port-Keeps : (v c : Console S) (o : Outcome (Port S)) → Keeps c (put_port v o)
  unfolding put_port
  put_port-Keeps v c fault = faults
  put_port-Keeps v c unfinished = waits
  put_port-Keeps v c (returns w) = succeeds _

-- The ways in which a step of a command may end, by which a chain of conditions is searched.
ruleset endings = (either, faults, succeeds, refuses, on_port-Keeps)

module _ {S : Type 0} (strtoi : List ℕ → ℤ × List ℕ) where
  dump_command-Keeps : (argv : List (List ℕ)) (c : Console S) → Keeps c (dump_command strtoi argv c)
  unfolding dump_command
  dump_command-Keeps argv c = search endings depth 8

  trysrc_command-Keeps :
      (argv : List (List ℕ)) (c : Console S) → Keeps c (trysrc_command strtoi argv c)
  unfolding trysrc_command
  trysrc_command-Keeps argv c = search endings depth 8

  ping_command-Keeps :
      (port : ℤ) (argv : List (List ℕ)) (c : Console S) → Keeps c (ping_command strtoi port argv c)
  unfolding ping_command
  ping_command-Keeps port argv c = search endings depth 8

  vdm_command-Keeps :
      (port : ℤ) (argv : List (List ℕ)) (c : Console S) → Keeps c (vdm_command strtoi port argv c)
  unfolding vdm_command
  vdm_command-Keeps port argv c = search endings depth 10

module _ {S : Type 0} (others : Port S → Port S) (fuel : ℕ) where
  send_flash-Keeps :
      (port : ℤ) (cmd : ℕ) (words : List ℕ) (cnt : ℕ) (c v : Console S)
      → Keeps c (send_flash others fuel port cmd words cnt v)
  unfolding send_flash
  send_flash-Keeps port cmd words cnt c v = search (endings, put_port-Keeps) depth 8

  write_words-Keeps :
      (port : ℤ) (argv : List (List ℕ)) (o : Outcome (Option (List ℕ))) (c : Console S)
      → Keeps c (write_words others fuel port argv o c)
  unfolding write_words
  write_words-Keeps port argv fault c = faults
  write_words-Keeps port argv unfinished c = waits
  write_words-Keeps port argv (returns none) c = refuses _
  write_words-Keeps port argv (returns (some words)) c = search (endings, send_flash-Keeps)

  remote_flashing-Keeps :
      (strtoi : List ℕ → ℤ × List ℕ) (argv : List (List ℕ)) (c : Console S)
      → Keeps c (remote_flashing others strtoi fuel argv c)
  unfolding remote_flashing
  remote_flashing-Keeps strtoi argv c =
      search (endings, send_flash-Keeps, write_words-Keeps) depth 16

module _ {S : Type 0} (drv : TcpmDrv S) where
  swap_command-Keeps :
      (port : ℤ) (argv : List (List ℕ)) (c : Console S) → Keeps c (swap_command drv port argv c)
  unfolding swap_command
  swap_command-Keeps port argv c = search endings depth 10

module _ {S : Type 0} (drv : TcpmDrv S) (strtoi : List ℕ → ℤ × List ℕ)
    (to_bist_rx to_bist_tx others : Port S → Port S) (fuel : ℕ) where
  port_command-Keeps :
      (port : ℤ) (argv : List (List ℕ)) (c : Console S)
      → Keeps c (port_command drv strtoi to_bist_rx to_bist_tx others fuel port argv c)
  unfolding port_command dev_command comm_command
  port_command-Keeps port argv c =
      search
        (endings, swap_command-Keeps, ping_command-Keeps, vdm_command-Keeps, remote_flashing-Keeps)
        depth 24

  command_pd-Keeps :
      (min_soc batt_soc : ℕ) (argv : List (List ℕ)) (c : Console S)
      → Keeps c (command_pd drv strtoi to_bist_rx to_bist_tx others fuel min_soc batt_soc argv c)
  unfolding command_pd
  command_pd-Keeps min_soc batt_soc argv c =
      search
        (
          endings, dualrole_command-Keeps, dump_command-Keeps, trysrc_command-Keeps,
          port_command-Keeps,
        )
        depth 12

  -- A command `pd` of any words that returns with an error has changed nothing: not the port, nor
  -- whether it communicates, nor the debug level, nor the offset of a firmware update.
  pub command_pd-refused :
      (min_soc batt_soc : ℕ) (argv : List (List ℕ)) (c v : Console S) (r : CmdResult)
      → command_pd drv strtoi to_bist_rx to_bist_tx others fuel min_soc batt_soc argv c
        ≡ returns (v, r)
      → (r ≡ ok) ⊎ (v ≡ c)
  command_pd-refused min_soc batt_soc argv c v r h =
      ends _ (command_pd-Keeps min_soc batt_soc argv c) h
