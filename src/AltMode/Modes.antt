-- ===== src/AltMode/Modes.antt =====
-- NOA_ESP32_PD/usb_pd_policy.cpp: the table of active modes, and how a mode is entered and left.
use noa_esp32_pd.Base.{
  ℕ, ◌+◌, ◌-◌, leb, ◌==◌, ◌||◌, ◌&&◌, not, Bool, true, false, if◌then◌else◌, List, [], ◌∷◌, Option,
  none, some, get_or, get_elem?, take, bit_or,
}
use noa_esp32_pd.Base.Int.{ℤ, pos, negsuc, is_minus_one}
use noa_esp32_pd.Message.Objects.{vdo, vdo_vid}
use noa_esp32_pd.Message.Modes.{vdo_opos, vdo_opos_bits}
use noa_esp32_pd.Message.Types.Vdm as Cmd
use noa_esp32_pd.AltMode.State.{
  SvidData, AmodeData, Policy, MessageFunc, AmodeFx, Board, M, pure, ◌>>=◌, ◌>>◌, get_pe, put_pe,
  deref, on_board, pd_amode_count, pd_dfp_pe_init, zero_amode, update,
}

abbrev pub is_null : {A : Type 0} → Option A → Bool
is_null none = true
is_null (some x) = false

-- `*p` at an index that a pointer stands for.
abbrev pub at : {A : Type 0} → List A → Option ℕ → Option A
at xs none = none
at xs (some i) = get_elem? xs i

-- The inner loop of `allocate_mode`: the first svid discovered that is the mode's, and the one
-- asked for, unless that is 0.
unfoldable pub find_svid : ℕ → List SvidData → ℕ → ℕ → Option ℕ
find_svid j [] mode svid = none
find_svid j (d ∷ rest) mode svid =
    if not (d.svid == mode) || not (svid == 0) && not (d.svid == svid)
    then find_svid (j + 1) rest mode svid
    else some j

-- The outer loop, over the supported modes: the indices of the mode and of its svid.
unfoldable pub find_mode : {B : Type 0} → ℕ → List (AmodeFx B) → List SvidData → ℕ → Option (ℕ × ℕ)
unfolding find_svid
find_mode i [] svids svid = none
find_mode i (f ∷ rest) svids svid = elim (find_svid 0 svids f.svid svid) [
  | none ↦ find_mode (i + 1) rest svids svid
  | some j ↦ some (i, j)
]

-- Entering the mode found into the table.
unfoldable pub add_amode : ℕ → ℕ → Policy → Policy
add_amode i j p = record p {
  amodes = update p.amodes p.amode_idx (λ a. record a { fx = some i; svid_data = some j });
  amode_idx = p.amode_idx + 1;
}

unfoldable pub add_found : Option (ℕ × ℕ) → Policy → Policy × Option ℕ
unfolding add_amode
add_found none p = (p, none)
add_found (some (i, j)) p = (add_amode i j p, some p.amode_idx)

-- `modep->data->mode_vdo[modep->opos - 1]`
unfoldable pub mode_caps : AmodeData → Policy → Option ℕ
mode_caps a p = elim (at p.svids a.svid_data) [
  | none ↦ none
  | some d ↦ if a.opos == 0 then none else get_elem? d.mode_vdo (a.opos - 1)
]

-- `opos <= modep->data->mode_cnt`
abbrev pub in_modes : ℕ → SvidData → Bool
in_modes opos d = elim d.mode_cnt [ pos n ↦ leb opos n | negsuc n ↦ false ]

-- The object position that is taken, or `none` where it is refused; the first by default.
unfoldable pub chosen_opos : ℕ → SvidData → Option ℕ
chosen_opos opos d = if opos == 0 then some 1 else if in_modes opos d then some opos else none

abbrev pub set_opos : ℕ → ℕ → Policy → Policy
set_opos i opos p = record p { amodes = update p.amodes i (λ a. record a { opos = opos }) }

abbrev pub mode_at : List AmodeData → Option ℕ → Option (ℕ × AmodeData)
mode_at amodes none = none
mode_at amodes (some i) = some (i, get_or amodes i zero_amode)

-- `(modep) ? modep->opos : -1`
abbrev pub opos_of : Option (ℕ × AmodeData) → ℤ
opos_of none = negsuc 0
opos_of (some m) = pos m.1.opos

module _ {B : Type 0} (b : Board B) where
  -- `modep->fx->svid`
  unfoldable pub fx_svid : AmodeData → Option ℕ
  fx_svid a = elim a.fx [
    | none ↦ b.null_svid
    | some i ↦ elim (get_elem? b.supported_modes i) [ none ↦ none | some f ↦ some f.svid ]
  ]

  -- The loop of `get_mode_idx` at index `i`, with the modes from there on: `none` is a fault,
  -- `some none` is -1.
  unfoldable pub mode_idx_from : ℕ → List AmodeData → ℕ → Option (Option ℕ)
  unfolding fx_svid
  mode_idx_from i [] svid = some none
  mode_idx_from i (a ∷ rest) svid = elim (fx_svid a) [
    | none ↦ none
    | some s ↦ if s == svid then some (some i) else mode_idx_from (i + 1) rest svid
  ]

  unfoldable pub get_mode_idx : ℕ → M B (Option ℕ)
  unfolding mode_idx_from
  get_mode_idx svid = do p ← get_pe; deref (mode_idx_from 0 p.amodes svid)

  -- `get_modep`: the index of the mode for a pointer to it, with the mode.
  unfoldable pub get_modep : ℕ → M B (Option (ℕ × AmodeData))
  unfolding get_mode_idx
  get_modep svid = do idx ← get_mode_idx svid; p ← get_pe; pure (mode_at p.amodes idx)

  unfoldable pub pd_alt_mode : ℕ → M B ℤ
  unfolding get_modep
  pd_alt_mode svid = do modep ← get_modep svid; pure (opos_of modep)

  -- `none` is -1: there is no space, or no mode was found.
  unfoldable pub allocate_new : ℕ → Policy → Policy × Option ℕ
  unfolding find_mode add_found
  allocate_new svid p =
      if p.amode_idx == pd_amode_count
      then (p, none)
      else add_found (find_mode 0 b.supported_modes (take p.svid_cnt p.svids) svid) p

  -- The mode that is in the table already, or a new one.
  unfoldable pub allocate_at : ℕ → Option ℕ → Policy → M B (Option ℕ)
  unfolding allocate_new
  allocate_at svid none p = let r = allocate_new svid p in put_pe r.0 >> pure r.1
  allocate_at svid (some i) p = pure (some i)

  unfoldable pub allocate_mode : ℕ → M B (Option ℕ)
  unfolding get_mode_idx allocate_at
  allocate_mode svid = get_mode_idx svid >>= λ idx. get_pe >>= allocate_at svid idx

  -- The part of `pd_dfp_enter_mode` after the mode has its entry `a` at `i`: where the position
  -- is refused, 0, and else the position is noted and the board may still refuse.
  unfoldable pub enter_opos : ℕ → AmodeData → Policy → Option ℕ → M B ℕ
  unfolding mode_caps vdo
  enter_opos i a p none = pure 0
  enter_opos i a p (some n) = do
    put_pe (set_opos i n p)
    caps ← deref (mode_caps (record a { opos = n }) p)
    f ← deref (at b.supported_modes a.fx)
    r ← on_board (f.enter caps)
    pure (if is_minus_one r then 0 else vdo f.svid 1 (bit_or Cmd.cmd_enter_mode (vdo_opos_bits n)))

  unfoldable pub enter_at : ℕ → ℕ → M B ℕ
  unfolding chosen_opos enter_opos
  enter_at i opos = do
    p ← get_pe
    d ← deref (at p.svids (get_or p.amodes i zero_amode).svid_data)
    enter_opos i (get_or p.amodes i zero_amode) p (chosen_opos opos d)

  unfoldable pub enter_found : ℕ → Option ℕ → M B ℕ
  unfolding enter_at
  enter_found opos none = pure 0
  enter_found opos (some i) = enter_at i opos

  unfoldable pub pd_dfp_enter_mode : ℕ → ℕ → M B ℕ
  unfolding allocate_mode enter_found
  pd_dfp_enter_mode svid opos = allocate_mode svid >>= enter_found opos

  unfoldable pub validate_mode_request : AmodeData → ℕ → ℕ → Bool
  unfolding fx_svid
  validate_mode_request a svid opos =
      if is_null a.fx
      then false
      else elim (fx_svid a) [ none ↦ false | some s ↦ svid == s && opos == a.opos ]

  -- The message is left as the board leaves it.
  unfoldable pub run_attention : Option (MessageFunc B) → List ℕ → M B (List ℕ)
  run_attention none payload = pure payload
  run_attention (some attention) payload = do r ← on_board (attention payload); pure r.0

  unfoldable pub attend : ℕ → ℕ → Option (ℕ × AmodeData) → List ℕ → M B (List ℕ)
  unfolding validate_mode_request run_attention
  attend svid opos none payload = pure payload
  attend svid opos (some m) payload =
      if not (validate_mode_request m.1 svid opos)
      then pure payload
      else deref (at b.supported_modes m.1.fx) >>= λ f. run_attention f.attention payload

  unfoldable pub dfp_consume_attention : List ℕ → M B (List ℕ)
  unfolding get_modep attend vdo_vid vdo_opos
  dfp_consume_attention payload = do
    let svid = vdo_vid (get_or payload 0 0)
    let opos = vdo_opos (get_or payload 0 0)
    modep ← get_modep svid
    attend svid opos modep payload

  -- `fx->exit` of each active mode, in order.
  unfoldable pub exit_all : List AmodeData → B → B
  exit_all [] s = s
  exit_all (a ∷ rest) s =
      exit_all rest (elim (at b.supported_modes a.fx) [ none ↦ s | some f ↦ f.exit s ])

  -- The branch of `pd_dfp_exit_mode` for an svid of 0: all modes are left, the policy cleared.
  unfoldable pub exit_every : M B ℕ
  unfolding exit_all pd_dfp_pe_init
  exit_every = do
    p ← get_pe
    on_board (λ s. (exit_all p.amodes s, tt))
    put_pe (pd_dfp_pe_init p)
    pure 0

  -- The branch for an active mode at `i`.
  unfoldable pub exit_at : ℕ → AmodeData → M B ℕ
  exit_at i a = do
    p ← get_pe
    f ← deref (at b.supported_modes a.fx)
    on_board (λ s. (f.exit s, tt))
    put_pe (set_opos i 0 p)
    pure 1

  unfoldable pub exit_found : ℕ → ℕ → Option (ℕ × AmodeData) → M B ℕ
  unfolding exit_at validate_mode_request
  exit_found svid opos none = pure 0
  exit_found svid opos (some m) =
      if validate_mode_request m.1 svid opos then exit_at m.0 m.1 else pure 0

  unfoldable pub exit_mode : ℕ → ℕ → M B ℕ
  unfolding exit_found get_modep
  exit_mode svid opos = get_modep svid >>= exit_found svid opos

  unfoldable pub pd_dfp_exit_mode : ℕ → ℕ → M B ℕ
  unfolding exit_every exit_mode
  pd_dfp_exit_mode svid opos = if svid == 0 then exit_every else exit_mode svid opos
