-- ===== src/Examples/AltModes.antt =====
-- The theorems on answers to VDMs and on active modes at concrete inputs.
use noa_esp32_pd.Base.{
  true, arith, ℕ, ◌+◌, ◌≡◌, refl, List, [], ◌∷◌, Option, none, some, get_or, drop, bit_or,
}
use noa_esp32_pd.Base.Bits.{clear_bits}
use noa_esp32_pd.Base.Int.{pos}
use noa_esp32_pd.Message.Objects.{vdo, vdo_vid, vdo_cmd, vdo_cmdt, vdo_cmdt_mask}
use noa_esp32_pd.Message.Modes.{svid_svid0, svid_svid1, vdo_opos_bits}
use noa_esp32_pd.Message.Types.Vdm as Cmd
use noa_esp32_pd.AltMode.State.{
  SvidData, MessageFunc, AmodeFx, Board, Dfp, zero_svid, zero_amode, zero_policy,
}
use noa_esp32_pd.AltMode.Discovery.{
  dfp_consume_svids, consume_words, write_svid, dfp_discover_modes,
}
use noa_esp32_pd.AltMode.Modes.{fx_svid, mode_idx_from, get_mode_idx, get_modep, pd_dfp_enter_mode}
use noa_esp32_pd.AltMode.Svdm.{ack_command, ack_svids, svdm_ack, svdm_func, pd_svdm}
use noa_esp32_pd.AltMode.Replies.{answered, KeepsHeader, refused-nak, answers-by_result}
use noa_esp32_pd.AltMode.Entering.{ack-faults_empty}
use noa_esp32_pd.Message.Modes.{dp_pin_caps}
use noa_esp32_pd.Message.Vdos.{vdo_mode_dp}
use noa_esp32_pd.Message.Answers.{mode_dp_pins}
use noa_esp32_pd.AltMode.First.{lacks_svid, lacks_mode, enter_mode-takes_first}
use noa_esp32_pd.AltMode.Dump.{below_count, modes_from}

-- A board that knows DisplayPort and counts the calls of its functions.
abbrev same_message : MessageFunc ℕ
same_message m s = (s + 1, (m, pos 2))

abbrev identify : MessageFunc ℕ
identify m s = (s + 1, (get_or m 0 0 ∷ 0x6c00abcd ∷ [], pos 2))

abbrev display_port : AmodeFx ℕ
display_port = record {
  svid = 0xff01;
  enter = λ caps s. (s + 1, pos 0);
  status = same_message;
  config = same_message;
  post_config = none;
  attention = none;
  exit = λ s. s + 1;
}

abbrev board : Option ℕ → Board ℕ
board null_svid = record {
  supported_modes = display_port ∷ [];
  svdm_rsp = record {
    identity = some identify;
    svids = none;
    modes = none;
    enter_mode = none;
    exit_mode = none;
    amode = none;
  };
  null_svid = null_svid;
}

abbrev fresh : Dfp ℕ
fresh = record { pe = zero_policy; board = 0 }

-- The headers of DISCOVER_IDENT and DISCOVER_SVID, and of a positive answer to the first.
abbrev ask_identity : ℕ
ask_identity = 0xff008001

abbrev ask_svids : ℕ
ask_svids = 0xff008002

abbrev identity_ack : ℕ
identity_ack = 0xff008041

fields :
    (vdo_cmdt ask_identity ≡ 0)
    × (vdo_cmd ask_identity ≡ 1)
    × (vdo_cmdt ask_svids ≡ 0)
    × (vdo_cmd ask_svids ≡ 2)
    × (vdo_cmdt identity_ack ≡ 1)
unfolding vdo_cmd vdo_cmdt
fields = (refl, refl, refl, refl, refl)

has_identify : svdm_func (board none) (vdo_cmd ask_identity) ≡ some (some identify)
unfolding svdm_func
has_identify = rw (fields.1) refl

has_no_svids : svdm_func (board none) (vdo_cmd ask_svids) ≡ some none
unfolding svdm_func
has_no_svids = rw (fields.3) refl

identify-KeepsHeader : KeepsHeader identify
identify-KeepsHeader head rest s = refl

mode_dp_pins_example : dp_pin_caps (vdo_mode_dp 0x1c 0x05 1 1 2 1) ≡ 0x1c
mode_dp_pins_example = mode_dp_pins 0x1c 0x05 1 1 2 1

answers-by_result_example :
    let r = identify (clear_bits ask_identity vdo_cmdt_mask ∷ []) 0 in
    let a = answered ask_identity Cmd.cmdt_rsp_ack in
    (pd_svdm (board none) 1 (ask_identity ∷ []) fresh
      ≡ some ((pos 2, a ∷ drop 1 r.1.0), record fresh { board = r.0 }))
    × (vdo_cmd a ≡ vdo_cmd ask_identity)
    × (vdo_cmdt a ≡ Cmd.cmdt_rsp_ack)
answers-by_result_example =
    answers-by_result (board none) 1 ask_identity [] fresh identify identify-KeepsHeader fields.0
      (rw (fields.1) refl) has_identify

refused-nak_example :
    let a = answered ask_svids Cmd.cmdt_rsp_nak in
    (pd_svdm (board none) 1 (ask_svids ∷ []) fresh ≡ some ((pos 1, a ∷ []), fresh))
    × (vdo_cmd a ≡ vdo_cmd ask_svids)
    × (vdo_cmdt a ≡ Cmd.cmdt_rsp_nak)
refused-nak_example =
    refused-nak (board none) 1 ask_svids [] fresh fields.2 (rw (fields.3) refl) has_no_svids

ack-faults_empty_example : pd_svdm (board none) 1 (identity_ack ∷ []) fresh ≡ none
ack-faults_empty_example =
    ack-faults_empty (board none) 1 (identity_ack ∷ []) fresh refl refl fields.4

-- DisplayPort was discovered, with one mode.
abbrev dp_data : SvidData
dp_data = record { svid = 0xff01; mode_cnt = pos 1; mode_vdo = 0x405 ∷ 0 ∷ 0 ∷ 0 ∷ 0 ∷ 0 ∷ [] }

abbrev discovered : Dfp ℕ
discovered = record {
  pe = record zero_policy { svid_cnt = 1; svids = dp_data ∷ drop 1 zero_policy.svids };
  board = 0;
}

none_before : lacks_svid [] 0xff01 ≡ true
unfolding lacks_svid
none_before = refl

no_mode_before : lacks_mode {B = ℕ} [] 0xff01 ≡ true
unfolding lacks_mode
no_mode_before = refl

enter_mode-takes_first_example :
    pd_dfp_enter_mode (board (some 0)) 0xff01 0 discovered
    ≡ some (
      vdo 0xff01 1 (bit_or Cmd.cmd_enter_mode (vdo_opos_bits 1)),
      record {
        board = 1;
        pe = record (discovered.pe) {
          amodes = record { fx = some 0; opos = 1; svid_data = some 0 } ∷ zero_amode ∷ [];
          amode_idx = 1;
        };
      },
    )
enter_mode-takes_first_example =
    enter_mode-takes_first (board (some 0)) 0xff01 0 0 1 0x405 [] display_port [] [] dp_data
      (drop 1 zero_policy.svids) discovered refl refl refl refl refl refl no_mode_before refl refl
      (omega arith) none_before refl refl (omega arith) refl

-- The partner announces DisplayPort, and is asked for its modes.
abbrev svids_ack : ℕ
svids_ack = 0xff008042

abbrev known : Dfp ℕ
known = record {
  pe = record zero_policy {
    svid_cnt = 1;
    svids = record zero_svid { svid = 0xff01 } ∷ drop 1 zero_policy.svids;
  };
  board = 0;
}

announces :
    pd_svdm (board (some 0)) 2 (svids_ack ∷ 0xff010000 ∷ []) fresh
    ≡ some ((pos 1, vdo 0xff01 1 Cmd.cmd_discover_modes ∷ 0xff010000 ∷ []), known)
unfolding pd_svdm svdm_ack ack_command ack_svids dfp_consume_svids consume_words write_svid
    dfp_discover_modes get_modep get_mode_idx mode_idx_from fx_svid vdo vdo_cmd vdo_cmdt vdo_vid
    svid_svid0 svid_svid1 clear_bits
announces = refl

-- The first svid has two modes and the second none: of the first one's modes only one is printed.
abbrev two_modes : List SvidData
two_modes =
    record { svid = 0xff01; mode_cnt = pos 2; mode_vdo = 7 ∷ 8 ∷ 0 ∷ 0 ∷ 0 ∷ 0 ∷ [] }
    ∷ record { svid = 0x18d1; mode_cnt = pos 0; mode_vdo = 0 ∷ 0 ∷ 0 ∷ 0 ∷ 0 ∷ 0 ∷ [] }
    ∷ []

one_mode_printed : modes_from 0 (7 ∷ 8 ∷ 0 ∷ 0 ∷ 0 ∷ 0 ∷ []) two_modes ≡ some ((1, 7) ∷ [])
unfolding modes_from below_count
one_mode_printed = refl
