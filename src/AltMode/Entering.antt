-- ===== src/AltMode/Entering.antt =====
-- NOA_ESP32_PD/usb_pd_policy.cpp: how a mode gets into the table of active modes, and the read
-- through a null pointer on the way.
use noa_esp32_pd.Base.{
  ℕ, suc, ◌-◌, ◌==◌, false, if◌then◌else◌, ◌≡◌, refl, ap, ◌∙◌, List, [], ◌∷◌, Option, none, some,
  get_or, get_elem?, take, bit_or, arith,
}
use noa_esp32_pd.Base.Int.{is_minus_one}
use noa_esp32_pd.Message.Objects.{vdo, vdo_cmdt}
use noa_esp32_pd.Message.Modes.{vdo_opos_bits}
use noa_esp32_pd.Message.Types.Vdm as Cmd
use noa_esp32_pd.AltMode.State.{
  SvidData, AmodeData, Policy, AmodeFx, Board, Dfp, zero_amode, M, get_pe, ◌>>=◌, bind-some,
}
use noa_esp32_pd.AltMode.Modes.{
  fx_svid, mode_idx_from, get_mode_idx, get_modep, find_mode, add_amode, add_found, allocate_new,
  allocate_at, allocate_mode, chosen_opos, mode_caps, enter_opos, enter_at, enter_found,
  pd_dfp_enter_mode,
}
use noa_esp32_pd.AltMode.Svdm.{svdm_ack, pd_svdm}

module _ {B : Type 0} (b : Board B) where
  -- A positive answer that finds the table empty: `get_mode_idx` reads the svid of a mode through
  -- the null pointer of the first entry. Where that read faults, so does `pd_svdm`, whatever the
  -- command.
  pub ack-faults_empty :
      (cnt : ℕ) (payload : List ℕ) (s : Dfp B)
      → b.null_svid ≡ none
      → s.pe.amodes ≡ zero_amode ∷ zero_amode ∷ []
      → vdo_cmdt (get_or payload 0 0) ≡ Cmd.cmdt_rsp_ack
      → pd_svdm b cnt payload s ≡ none
  unfolding pd_svdm svdm_ack get_modep get_mode_idx mode_idx_from fx_svid
  ack-faults_empty cnt payload s hn ha ht = rw (ht, ha, hn) refl

  -- The same for the modes that the application asks for.
  enter-faults_empty :
      (svid opos : ℕ) (s : Dfp B)
      → b.null_svid ≡ none
      → s.pe.amodes ≡ zero_amode ∷ zero_amode ∷ []
      → pd_dfp_enter_mode b svid opos s ≡ none
  unfolding pd_dfp_enter_mode allocate_mode get_mode_idx mode_idx_from fx_svid
  enter-faults_empty svid opos s hn ha = rw (ha, hn) refl

  -- Where a read through the null pointer gives another svid, an empty table holds no mode.
  empty_idx :
      (svid v : ℕ) (s : Dfp B)
      → b.null_svid ≡ some v
      → (v == svid) ≡ false
      → s.pe.amodes ≡ zero_amode ∷ zero_amode ∷ []
      → get_mode_idx b svid s ≡ some (none, s)
  unfolding get_mode_idx mode_idx_from fx_svid
  empty_idx svid v s hn hv ha = ground (arith, hn, hv, ha)

  empty_allocates :
      (svid v i j : ℕ) (s : Dfp B)
      → b.null_svid ≡ some v
      → (v == svid) ≡ false
      → s.pe.amodes ≡ zero_amode ∷ zero_amode ∷ []
      → s.pe.amode_idx ≡ 0
      → find_mode 0 b.supported_modes (take s.pe.svid_cnt s.pe.svids) svid ≡ some (i, j)
      → allocate_mode b svid s ≡ some (some 0, record s { pe = add_amode i j s.pe })
  unfolding allocate_mode allocate_new allocate_at add_found
  empty_allocates svid v i j s hn hv ha hi hf =
      let found : Option ℕ → M B (Option ℕ) = λ idx. get_pe >>= allocate_at b svid idx in
      let n : allocate_new b svid s.pe ≡ (add_amode i j s.pe, some 0) = ground (arith, hi, hf) in
      bind-some (get_mode_idx b svid) found s s none (empty_idx svid v s hn hv ha)
      ∙ ap (λ r. some (r.1, record s { pe = r.0 })) n

  -- Entering the mode of the first entry.
  enter_first :
      (opos i j o n caps : ℕ) (f : AmodeFx B) (d : SvidData) (rest : List AmodeData) (p : Policy)
      (board : B)
      → get_elem? b.supported_modes i ≡ some f
      → get_elem? p.svids j ≡ some d
      → chosen_opos opos d ≡ some (suc n)
      → get_elem? d.mode_vdo n ≡ some caps
      → let r = f.enter caps board in
        enter_at b 0 opos (record {
          board = board;
          pe = record p { amodes = record { fx = some i; opos = o; svid_data = some j } ∷ rest };
        })
        ≡ some (
          (if is_minus_one r.1
              then 0
              else vdo f.svid 1 (bit_or Cmd.cmd_enter_mode (vdo_opos_bits (suc n)))),
          record {
            board = r.0;
            pe = record p {
              amodes = record { fx = some i; opos = suc n; svid_data = some j } ∷ rest;
            };
          },
        )
  unfolding enter_at enter_opos mode_caps
  enter_first opos i j o n caps f d rest p board hm hd ho hc =
      let e : (suc n == 0) ≡ false = ground arith in
      let m : suc n - 1 ≡ n = omega arith in rw (◌>>=◌, hd, ho, hd, e, m, hc, hm) refl

  -- Entering the mode that a search finds, with an empty table.
  pub enters_found :
      (svid opos v i j n caps : ℕ) (f : AmodeFx B) (d : SvidData) (s : Dfp B)
      → b.null_svid ≡ some v
      → (v == svid) ≡ false
      → s.pe.amodes ≡ zero_amode ∷ zero_amode ∷ []
      → s.pe.amode_idx ≡ 0
      → find_mode 0 b.supported_modes (take s.pe.svid_cnt s.pe.svids) svid ≡ some (i, j)
      → get_elem? b.supported_modes i ≡ some f
      → get_elem? s.pe.svids j ≡ some d
      → chosen_opos opos d ≡ some (suc n)
      → get_elem? d.mode_vdo n ≡ some caps
      → let r = f.enter caps s.board in
        pd_dfp_enter_mode b svid opos s
        ≡ some (
          (if is_minus_one r.1
              then 0
              else vdo f.svid 1 (bit_or Cmd.cmd_enter_mode (vdo_opos_bits (suc n)))),
          record {
            board = r.0;
            pe = record (s.pe) {
              amodes = record { fx = some i; opos = suc n; svid_data = some j } ∷ zero_amode ∷ [];
              amode_idx = 1;
            };
          },
        )
  unfolding pd_dfp_enter_mode enter_found add_amode
  enters_found svid opos v i j n caps f d s hn hv ha hi hf hm hd ho hc =
      let p : Policy = record (s.pe) { amode_idx = 1 } in
      let first : AmodeData = record { fx = some i; opos = 0; svid_data = some j } in
      let q : Policy = record p { amodes = first ∷ zero_amode ∷ [] } in
      let added : add_amode i j s.pe ≡ q = rw (ha, hi) refl in
      let u : Dfp B = record s { pe = add_amode i j s.pe } in
      bind-some (allocate_mode b svid) (enter_found b opos) s u (some 0)
        (empty_allocates svid v i j s hn hv ha hi hf)
      ∙ ap (λ x. enter_at b 0 opos (record s { pe = x })) added
      ∙ enter_first opos i j 0 n caps f d (zero_amode ∷ []) p s.board hm hd ho hc
