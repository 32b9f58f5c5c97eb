-- ===== src/AltMode/First.antt =====
-- NOA_ESP32_PD/usb_pd_policy.cpp: which mode `pd_dfp_enter_mode` enters first, and at which position.
use noa_esp32_pd.Base.{
  ℕ, zero, suc, ◌+◌, ◌-◌, ◌≤◌, ◌<◌, leb, ◌==◌, ◌&&◌, ◌||◌, not, Bool, true, false, if◌then◌else◌,
  ◌≡◌, refl, ap, subst, ◌∙◌, List, [], ◌∷◌, ◌++◌, length, none, some, get_elem?, take, bit_or,
  arith,
}
use noa_esp32_pd.Base.Int.{pos, is_minus_one}
use noa_esp32_pd.Message.Objects.{vdo}
use noa_esp32_pd.Message.Modes.{vdo_opos_bits}
use noa_esp32_pd.Message.Types.Vdm as Cmd
use noa_esp32_pd.AltMode.State.{SvidData, AmodeFx, Board, Dfp, zero_amode}
use noa_esp32_pd.AltMode.Modes.{find_svid, find_mode, chosen_opos, pd_dfp_enter_mode}
use noa_esp32_pd.AltMode.Entering.{enters_found}

-- No entry has the svid.
unfoldable pub lacks_svid : List SvidData → ℕ → Bool
lacks_svid [] svid = true
lacks_svid (d ∷ ds) svid = not (d.svid == svid) && lacks_svid ds svid

unfoldable pub lacks_mode : {B : Type 0} → List (AmodeFx B) → ℕ → Bool
lacks_mode [] svid = true
lacks_mode (f ∷ fs) svid = not (f.svid == svid) && lacks_mode fs svid

elem_at :
    {A : Type 0} (xs : List A) (x : A) (ys : List A) → get_elem? (xs ++ x ∷ ys) (length xs) ≡ some x
elem_at [] x ys = refl
elem_at (z ∷ xs) x ys = elem_at xs x ys

-- A mode of another svid is not found.
other_mode :
    (j : ℕ) (l : List SvidData) (mode svid : ℕ)
    → (svid == 0) ≡ false
    → (mode == svid) ≡ false
    → find_svid j l mode svid ≡ none
unfolding find_svid
other_mode j [] mode svid h k = refl
other_mode j (d ∷ l) mode svid h k =
    let e : (not (d.svid == mode) || not (svid == 0) && not (d.svid == svid)) ≡ true =
      ground arith in
    rw (e) (other_mode (j + 1) l mode svid h k)

first_svid :
    (j n : ℕ) (ds : List SvidData) (d : SvidData) (es : List SvidData) (svid : ℕ)
    → length ds < n
    → lacks_svid ds svid ≡ true
    → d.svid ≡ svid
    → find_svid j (take n (ds ++ d ∷ es)) svid svid ≡ some (j + length ds)
unfolding find_svid lacks_svid
first_svid j zero ds d es svid h k e = ground arith
first_svid j (suc n) [] d es svid h k e =
    let m : (not (d.svid == svid) || not (svid == 0) && not (d.svid == svid)) ≡ false =
      ground arith in
    rw (m) (ap some (omega arith))
first_svid j (suc n) (c ∷ ds) d es svid h k e =
    let m : (not (c.svid == svid) || not (svid == 0) && not (c.svid == svid)) ≡ true =
      ground arith in
    let r : lacks_svid ds svid ≡ true = ground arith in
    rw (m) (first_svid (j + 1) n ds d es svid (omega arith) r e ∙ ap some (omega arith))

first_mode :
    {B : Type 0} (i j : ℕ) (fs : List (AmodeFx B)) (f : AmodeFx B) (gs : List (AmodeFx B))
    (l : List SvidData) (svid : ℕ)
    → (svid == 0) ≡ false
    → lacks_mode fs svid ≡ true
    → f.svid ≡ svid
    → find_svid 0 l svid svid ≡ some j
    → find_mode i (fs ++ f ∷ gs) l svid ≡ some (i + length fs, j)
unfolding find_mode lacks_mode
first_mode i j [] f gs l svid h k e m =
    let x : find_svid 0 l f.svid svid ≡ some j = rw (e) m in
    rw (find_mode, x) (ap (λ n. some (n, j)) (omega arith))
first_mode i j (g ∷ fs) f gs l svid h k e m =
    let ne : (g.svid == svid) ≡ false = ground arith in
    let r : lacks_mode fs svid ≡ true = ground arith in
    rw (find_mode, other_mode 0 l g.svid svid h ne)
      (first_mode (i + 1) j fs f gs l svid h r e m ∙ ap (λ n. some (n, j)) (omega arith))

-- The position asked for, or the first.
position :
    (opos n : ℕ) (d : SvidData)
    → d.mode_cnt ≡ pos n
    → opos ≤ n
    → chosen_opos opos d ≡ some (suc (opos - 1))
unfolding chosen_opos
position zero n d h k = refl
position (suc o) n d h k =
    let e : (suc o == 0) ≡ false = ground arith in
    let m : leb (suc o) n ≡ true = ground arith in rw (e, h, m) (ap some (omega arith))

asked_or_first : (opos : ℕ) → suc (opos - 1) ≡ (if opos == 0 then 1 else opos)
asked_or_first opos = ground arith

-- Entering a mode of a svid other than 0 with an empty table, where a read through the null pointer
-- gives some other svid: the first supported mode of the svid, with the first discovered entry of
-- the svid, takes the first place of the table, at the position asked for, which is at most the
-- number of its modes, or 1 if 0 was asked for; the board's `enter` gets the capabilities at that
-- position, and decides between the header of ENTER_MODE and 0. The entry stays either way.
pub enter_mode-takes_first :
    {B : Type 0} (b : Board B) (svid opos v n caps : ℕ) (fs : List (AmodeFx B)) (f : AmodeFx B)
    (gs : List (AmodeFx B)) (ds : List SvidData) (d : SvidData) (es : List SvidData) (s : Dfp B)
    → b.null_svid ≡ some v
    → (v == svid) ≡ false
    → (svid == 0) ≡ false
    → s.pe.amodes ≡ zero_amode ∷ zero_amode ∷ []
    → s.pe.amode_idx ≡ 0
    → b.supported_modes ≡ fs ++ f ∷ gs
    → lacks_mode fs svid ≡ true
    → f.svid ≡ svid
    → s.pe.svids ≡ ds ++ d ∷ es
    → length ds < s.pe.svid_cnt
    → lacks_svid ds svid ≡ true
    → d.svid ≡ svid
    → d.mode_cnt ≡ pos n
    → opos ≤ n
    → get_elem? d.mode_vdo (opos - 1) ≡ some caps
    → let place = if opos == 0 then 1 else opos in
      let r = f.enter caps s.board in
      pd_dfp_enter_mode b svid opos s
      ≡ some (
        (if is_minus_one r.1
            then 0
            else vdo svid 1 (bit_or Cmd.cmd_enter_mode (vdo_opos_bits place))),
        record {
          board = r.0;
          pe = record (s.pe) {
            amodes =
                record { fx = some (length fs); opos = place; svid_data = some (length ds) }
                ∷ zero_amode
                ∷ [];
            amode_idx = 1;
          };
        },
      )
enter_mode-takes_first b svid opos v n caps fs f gs ds d es s hn hv hz ha hi hb hl hf hd hc hk hs hm
      ho hp =
    let r = f.enter caps s.board in
    let P = λ (sv place : ℕ).
      pd_dfp_enter_mode b svid opos s
      ≡ some (
        (if is_minus_one r.1
            then 0
            else vdo sv 1 (bit_or Cmd.cmd_enter_mode (vdo_opos_bits place))),
        record {
          board = r.0;
          pe = record (s.pe) {
            amodes =
                record { fx = some (length fs); opos = place; svid_data = some (length ds) }
                ∷ zero_amode
                ∷ [];
            amode_idx = 1;
          };
        },
      ) in
    let j : find_svid 0 (take s.pe.svid_cnt s.pe.svids) svid svid ≡ some (length ds) =
      rw (hd) (first_svid 0 s.pe.svid_cnt ds d es svid hc hk hs ∙ ap some (omega arith)) in
    let found : find_mode 0 b.supported_modes (take s.pe.svid_cnt s.pe.svids) svid
        ≡ some (length fs, length ds) =
      rw (hb) (
        first_mode 0 (length ds) fs f gs (take s.pe.svid_cnt s.pe.svids) svid hz hl hf j
        ∙ ap (λ n. some (n, length ds)) (omega arith)) in
    let mode : get_elem? b.supported_modes (length fs) ≡ some f = rw (hb) (elem_at fs f gs) in
    let data_at : get_elem? s.pe.svids (length ds) ≡ some d = rw (hd) (elem_at ds d es) in
    subst (λ place. P svid place) (asked_or_first opos)
      (subst (λ sv. P sv (suc (opos - 1))) hf
        (enters_found b svid opos v (length fs) (length ds) (opos - 1) caps f d s hn hv ha hi found
          mode data_at (position opos n d hm ho) hp))
