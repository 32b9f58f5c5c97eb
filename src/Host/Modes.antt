-- ===== src/Host/Modes.antt =====
-- NOA_ESP32_PD/usb_pd_protocol.cpp and usb_pd_policy.cpp: the host asks for alternate modes and sets
-- them, over the port and the policy of the DFP.
use noa_esp32_pd.Base.{
  ℕ, leb, ◌==◌, ◌||◌, if◌then◌else◌, List, [], Option, none, some, get_elem?, get_or, bit_or, take,
}
use noa_esp32_pd.Base.Int.{ℤ, pos}
use noa_esp32_pd.Message.Modes.{vdo_opos_bits, idh_ptype}
use noa_esp32_pd.Message.Types.Vdm as Cmd
use noa_esp32_pd.Protocol.Port.{Port}
use noa_esp32_pd.Protocol.Vdm.{pd_send_vdm}
use noa_esp32_pd.AltMode.State.{SvidData, Policy, Board, M, pure, ◌>>=◌, get_pe, deref}
use noa_esp32_pd.AltMode.Discovery.{pd_get_identity_vid, pd_get_identity_pid}
use noa_esp32_pd.AltMode.Modes.{get_modep, opos_of, pd_dfp_enter_mode, pd_dfp_exit_mode}
use noa_esp32_pd.Host.Result.{EcResult}

-- `cmd`: the host may send another.
pub data SetMode : Type 0 where
  exit_mode enter_mode other : SetMode

-- `struct ec_params_usb_pd_set_mode_request`
pub record SetModeRequest : Type 0 where
  pub port : ℕ
  pub svid : ℕ
  pub opos : ℕ
  pub cmd : SetMode

-- `struct ec_params_usb_pd_get_mode_response`
pub record GetModeResponse : Type 0 where
  pub svid : ℕ
  pub opos : ℤ
  pub vdo : List ℕ

-- `struct ec_params_usb_pd_discovery_entry`; the pid is set only with a vid.
pub record Discovered : Type 0 where
  pub vid : ℕ
  pub ptype : ℕ
  pub pid : Option ℕ

unfoldable pub hc_remote_pd_discovery : ℕ → Policy → Option Discovered × EcResult
unfolding pd_get_identity_vid pd_get_identity_pid idh_ptype
hc_remote_pd_discovery port p =
    if leb 1 port
    then (none, EcResult.invalid_param)
    else let vid = pd_get_identity_vid p in
      (
        some (record {
          vid = vid;
          ptype = idh_ptype (get_or p.identity 0 0);
          pid = if vid == 0 then none else some (pd_get_identity_pid p);
        }),
        EcResult.success,
      )

-- The VDM of a mode for the partner.
unfoldable pub send_mode : {S : Type 0} → ℕ → SetModeRequest → Port S → Port S
unfolding pd_send_vdm
send_mode cmd p w = pd_send_vdm p.svid (bit_or cmd (vdo_opos_bits p.opos)) [] 0 w

module _ {B : Type 0} (b : Board B) where
  -- There is one port. A fault of the policy is one of the command.
  unfoldable pub hc_remote_pd_set_amode :
      {S : Type 0} → SetModeRequest → Port S → M B (Port S × EcResult)
  unfolding pd_dfp_enter_mode pd_dfp_exit_mode send_mode
  hc_remote_pd_set_amode p w =
      if leb 1 p.port || p.svid == 0 || p.opos == 0
      then pure (w, EcResult.invalid_param)
      else elim p.cmd [
        | exit_mode ↦ do
          left ← pd_dfp_exit_mode b p.svid p.opos
          pure (
              if left == 0
              then (w, EcResult.error)
              else (send_mode Cmd.cmd_exit_mode p w, EcResult.success))
        | enter_mode ↦ do
          header ← pd_dfp_enter_mode b p.svid p.opos
          pure (
              if header == 0
              then (w, EcResult.success)
              else (send_mode Cmd.cmd_enter_mode p w, EcResult.success))
        | other ↦ pure (w, EcResult.invalid_param)
      ]

  -- The modes of the svid at an index, an svid of 0 behind the last.
  unfoldable pub get_amode_of : SvidData → M B (Option GetModeResponse × EcResult)
  unfolding get_modep
  get_amode_of d = do
    modep ← get_modep b d.svid
    pure (
      some (record {
        svid = d.svid;
        opos = elim modep [ none ↦ pos 0 | some m ↦ opos_of (some m) ];
        vdo = take 6 d.mode_vdo;
      }),
      EcResult.success,
    )

  unfoldable pub get_amode_at : ℕ → Policy → M B (Option GetModeResponse × EcResult)
  unfolding get_amode_of
  get_amode_at i p =
      if leb p.svid_cnt i
      then pure (some (record { svid = 0; opos = pos 0; vdo = [] }), EcResult.success)
      else deref (get_elem? p.svids i) >>= get_amode_of

  unfoldable pub hc_remote_pd_get_amode : ℕ → ℕ → M B (Option GetModeResponse × EcResult)
  unfolding get_amode_at
  hc_remote_pd_get_amode port svid_idx =
      if leb 1 port then pure (none, EcResult.invalid_param) else get_pe >>= get_amode_at svid_idx
