-- ===== src/AltMode/Dump.antt =====
-- NOA_ESP32_PD/usb_pd_policy.cpp: `dump_pe` and `command_pe` (CONFIG_CMD_USB_PD_PE). What is printed
-- is the result; the names of the product types are left out.
use noa_esp32_pd.Base.{
  ℕ, zero, suc, ◌+◌, ◌-◌, ltb, ◌==◌, ◌||◌, not, Bool, true, false, if◌then◌else◌, List, [], ◌∷◌,
  ◌++◌, Option, none, some, length, get_or, get_elem?, drop,
}
use noa_esp32_pd.Base.Int.{ℤ, pos, negsuc, is_neg}
use noa_esp32_pd.Message.Modes.{idh_ptype}
use noa_esp32_pd.AltMode.State.{
  SvidData, AmodeData, Policy, Board, M, pure, fault, ◌>>=◌, get_pe, deref,
}
use noa_esp32_pd.AltMode.Discovery.{pd_get_identity_vid}
use noa_esp32_pd.AltMode.Modes.{get_modep}
use noa_esp32_pd.Console.Text.{codes, strncasecmp}
use noa_esp32_pd.Console.State.{CmdResult, arg, too_high}

-- The lines that are printed.
pub data PeLine : Type 0 where
  no_identity no_svids : PeLine
  id_header : ℕ → ℕ → ℕ → PeLine
  cert_stat : ℕ → PeLine
  identity_object : ℕ → ℕ → PeLine
  svid_modes : ℕ → List (ℕ × ℕ) → PeLine
  active_mode : ℕ → ℕ → ℕ → PeLine

-- `j < cnt` for a count that is an int.
unfoldable pub below_count : ℕ → ℤ → Bool
below_count j (pos n) = ltb j n
below_count j (negsuc n) = false

-- The objects of the identity from an index on, those that are not 0.
unfoldable pub identity_lines : ℕ → List ℕ → List PeLine
identity_lines i [] = []
identity_lines i (v ∷ rest) =
    let more = identity_lines (i + 1) rest in if v == 0 then more else identity_object i v ∷ more

-- The loop over the modes of an svid, whose objects are `mode_vdo`: its bound is the count of
-- modes at the index `j` of the loop, so it walks the table of svids.
unfoldable pub modes_from : ℕ → List ℕ → List SvidData → Option (List (ℕ × ℕ))
unfolding below_count
modes_from j mode_vdo [] = none
modes_from j mode_vdo (d ∷ rest) =
    let more = modes_from (j + 1) mode_vdo rest in
    elim (below_count j d.mode_cnt) [
      | false ↦ some []
      | true ↦ elim (get_elem? mode_vdo j) [
        | none ↦ none
        | some v ↦ elim more [ none ↦ none | some vs ↦ some ((j + 1, v) ∷ vs) ]
      ]
    ]

module _ {B : Type 0} (b : Board B) where
  -- The mode that is active for an svid, if there is one: `opos`, the svid of its functions, and
  -- its object.
  unfoldable pub mode_line : AmodeData → Policy → M B (List PeLine)
  mode_line m p = do
    i ← deref m.svid_data
    d ← deref (get_elem? p.svids i)
    caps ← deref (get_elem? d.mode_vdo (m.opos - 1))
    f ← deref m.fx
    x ← deref (get_elem? b.supported_modes f)
    pure (active_mode m.opos x.svid caps ∷ [])

  unfoldable pub svid_lines : SvidData → M B (List PeLine)
  unfolding modes_from get_modep mode_line
  svid_lines d = do
    p ← get_pe
    modes ← deref (modes_from 0 d.mode_vdo p.svids)
    modep ← get_modep b d.svid
    rest ← elim modep [ none ↦ pure [] | some m ↦ mode_line m.1 p ]
    pure (svid_modes d.svid modes ∷ rest)

  -- The loop over the svids, from an index on, with the count of those that are left.
  unfoldable pub all_svids : ℕ → ℕ → M B (List PeLine)
  unfolding svid_lines
  all_svids zero i = pure []
  all_svids (suc left) i = do
    p ← get_pe
    d ← deref (get_elem? p.svids i)
    here ← svid_lines d
    rest ← all_svids left (i + 1)
    pure (here ++ rest)

  -- What follows the identity, unless there is none.
  unfoldable pub dump_known : ℕ → List PeLine → ℕ → M B (List PeLine)
  unfolding all_svids
  dump_known header head svid_cnt =
      if header == 0
      then pure (no_identity ∷ [])
      else if svid_cnt == 0
      then pure (head ++ no_svids ∷ [])
      else all_svids svid_cnt 0 >>= λ rest. pure (head ++ rest)

  unfoldable pub dump_pe : M B (List PeLine)
  unfolding identity_lines dump_known idh_ptype pd_get_identity_vid
  dump_pe = do
    p ← get_pe
    let header = get_or p.identity 0 0
    let head =
        id_header header (idh_ptype header) (pd_get_identity_vid p)
        ∷ cert_stat (get_or p.identity 1 0)
        ∷ identity_lines 2 (drop 2 p.identity)
    dump_known header head p.svid_cnt

  unfoldable pub command_pe : (List ℕ → ℤ × List ℕ) → List (List ℕ) → M B (List PeLine × CmdResult)
  unfolding too_high strncasecmp dump_pe
  command_pe strtoi argv =
      let p = strtoi (arg 1 argv) in
      if ltb (length argv) 3
      then pure ([], CmdResult.param_count)
      else if not (length p.1 == 0) || too_high p.0
      then pure ([], CmdResult.param2)
      else if strncasecmp 4 (arg 2 argv) (codes "dump")
      then (if is_neg p.0 then fault else dump_pe >>= λ ls. pure (ls, CmdResult.ok))
      else pure ([], CmdResult.ok)
