-- ===== src/AltMode/Svdm.antt =====
-- NOA_ESP32_PD/usb_pd_policy.cpp: `pd_svdm`, the answer to a structured VDM. `pd_get_vdo_ver` is
-- VDM_VER10, which is 0, so VDO_SVDM_VERS sets no bit.
use noa_esp32_pd.Base.{
  ℕ, zero, suc, ◌==◌, ◌||◌, if◌then◌else◌, List, Option, none, some, get_or, set, bit_or,
}
use noa_esp32_pd.Base.Bits.{clear_bits}
use noa_esp32_pd.Base.Int.{ℤ, pos, negsuc}
use noa_esp32_pd.Message.Objects.{vdo_vid, vdo_cmd, vdo_cmdt, vdo_cmdt_mask}
use noa_esp32_pd.Message.Modes.{vdo_cmdt_bits, vdo_opos}
use noa_esp32_pd.Message.Types.Vdm as Cmd
use noa_esp32_pd.AltMode.State.{
  AmodeData, MessageFunc, Board, M, pure, ◌>>=◌, ◌>>◌, get_pe, put_pe, deref, on_board, zero_amode,
}
use noa_esp32_pd.AltMode.Discovery.{
  dfp_consume_identity, dfp_discover_svids, dfp_consume_svids, dfp_discover_modes,
  dfp_consume_modes,
}
use noa_esp32_pd.AltMode.Modes.{at, get_modep, pd_dfp_enter_mode, dfp_consume_attention}

-- `payload[0] |= bits`
abbrev pub mark : ℕ → List ℕ → List ℕ
mark bits payload = set payload 0 (bit_or (get_or payload 0 0) bits)

-- What the answer says, and how long it is, by the result of the function that made it.
abbrev pub reply_type : ℤ → ℕ
reply_type (pos zero) = Cmd.cmdt_rsp_nak
reply_type (pos (suc n)) = Cmd.cmdt_rsp_ack
reply_type (negsuc n) = Cmd.cmdt_rsp_busy

abbrev pub reply_size : ℤ → ℤ
reply_size (pos zero) = pos 1
reply_size (pos (suc n)) = pos (suc n)
reply_size (negsuc n) = pos 1

module _ {B : Type 0} (b : Board B) where
  -- The function for a command that the partner initiates: `none` is a fault, `some none` a null
  -- pointer or no function.
  unfoldable pub svdm_func : ℕ → Option (Option (MessageFunc B))
  svdm_func cmd =
      let rsp = b.svdm_rsp in
      if cmd == Cmd.cmd_discover_ident
      then some rsp.identity
      else if cmd == Cmd.cmd_discover_svid
      then some rsp.svids
      else if cmd == Cmd.cmd_discover_modes
      then some rsp.modes
      else if cmd == Cmd.cmd_enter_mode
      then some rsp.enter_mode
      else if cmd == Cmd.cmd_dp_status
      then elim rsp.amode [ none ↦ none | some a ↦ some a.0 ]
      else if cmd == Cmd.cmd_dp_config
      then elim rsp.amode [ none ↦ none | some a ↦ some a.1 ]
      else if cmd == Cmd.cmd_exit_mode
      then some rsp.exit_mode
      else some none

  unfoldable pub run_func : Option (MessageFunc B) → List ℕ → M B (List ℕ × ℤ)
  run_func none payload = pure (payload, pos 0)
  run_func (some f) payload = on_board (f payload)

  unfoldable pub svdm_init : ℕ → List ℕ → M B (ℤ × List ℕ)
  unfolding svdm_func run_func
  svdm_init cmd payload = do
    func ← deref (svdm_func cmd)
    r ← run_func func payload
    pure (reply_size r.1, mark (vdo_cmdt_bits (reply_type r.1)) r.0)

  -- What the charge manager is told of the identity is no part of the state.
  -- The cases of a positive answer to a message of ours; the result is the size of the next
  -- message, 0 for none.
  unfoldable pub ack_identity : ℕ → List ℕ → M B (ℤ × List ℕ)
  unfolding dfp_consume_identity dfp_discover_svids
  ack_identity cnt payload = do
    p ← get_pe
    put_pe (dfp_consume_identity cnt payload p)
    pure (pos 1, dfp_discover_svids payload)

  unfoldable pub ack_svids : List ℕ → M B (ℤ × List ℕ)
  unfolding dfp_consume_svids dfp_discover_modes
  ack_svids payload = do
    p ← get_pe
    q ← deref (dfp_consume_svids payload p)
    put_pe q
    r ← deref (dfp_discover_modes payload q)
    pure (pos r.0, r.1)

  -- After the last svid the default mode is entered.
  unfoldable pub enter_default : List ℕ → M B (ℤ × List ℕ)
  unfolding pd_dfp_enter_mode
  enter_default payload = do
    header ← pd_dfp_enter_mode b 0 0
    pure ((if header == 0 then pos 0 else pos 1), set payload 0 header)

  unfoldable pub ack_modes : ℕ → List ℕ → M B (ℤ × List ℕ)
  unfolding dfp_consume_modes dfp_discover_modes enter_default
  ack_modes cnt payload = do
    p ← get_pe
    q ← deref (dfp_consume_modes cnt payload p)
    put_pe q
    r ← deref (dfp_discover_modes payload q)
    if r.0 == 0 then enter_default r.1 else pure (pos r.0, r.1)

  -- Where the mode at `i` has an object position, the board gives the status. The header is marked
  -- with PD_VDO_OPOS of the position, not with VDO_OPOS.
  unfoldable pub status_of : AmodeData → List ℕ → M B (ℤ × List ℕ)
  unfolding vdo_opos
  status_of a payload = do
    f ← deref (at b.supported_modes a.fx)
    r ← on_board (f.status payload)
    pure (r.1, mark (vdo_opos a.opos) r.0)

  unfoldable pub ask_status : ℕ → List ℕ → M B (ℤ × List ℕ)
  unfolding status_of
  ask_status i payload = do
    p ← get_pe
    let a = get_or p.amodes i zero_amode
    if a.opos == 0 then pure (pos 1, payload) else status_of a payload

  unfoldable pub ack_enter : Option (ℕ × AmodeData) → List ℕ → M B (ℤ × List ℕ)
  unfolding pd_dfp_enter_mode ask_status
  ack_enter none payload = pure (pos 0, payload)
  ack_enter (some m) payload =
      if m.1.opos == 0
      then (pd_dfp_enter_mode b 0 0 >>= λ _. ask_status m.0 payload)
      else ask_status m.0 payload

  -- The mode's entry is read again after the attention.
  unfoldable pub config_of : AmodeData → List ℕ → M B (ℤ × List ℕ)
  config_of a payload = do
    f ← deref (at b.supported_modes a.fx)
    r ← on_board (f.config payload)
    pure (r.1, r.0)

  unfoldable pub configure : ℕ → List ℕ → M B (ℤ × List ℕ)
  unfolding config_of
  configure i payload = do
    p ← get_pe
    let a = get_or p.amodes i zero_amode
    if a.opos == 0 then pure (pos 0, payload) else config_of a payload

  unfoldable pub configure_found : Option (ℕ × AmodeData) → List ℕ → M B (ℤ × List ℕ)
  unfolding configure
  configure_found none payload = pure (pos 0, payload)
  configure_found (some m) payload = configure m.0 payload

  unfoldable pub ack_status : Option (ℕ × AmodeData) → List ℕ → M B (ℤ × List ℕ)
  unfolding dfp_consume_attention configure_found
  ack_status modep payload = do q ← dfp_consume_attention b payload; configure_found modep q

  unfoldable pub run_post : Option (B → B) → M B (Unit {0})
  run_post none = pure tt
  run_post (some post) = on_board (λ s. (post s, tt))

  unfoldable pub ack_config : Option (ℕ × AmodeData) → List ℕ → M B (ℤ × List ℕ)
  unfolding run_post
  ack_config none payload = pure (pos 0, payload)
  ack_config (some m) payload =
      if m.1.opos == 0
      then pure (pos 0, payload)
      else (deref (at b.supported_modes m.1.fx) >>= λ f.
          run_post f.post_config >> pure (pos 0, payload))

  -- `CMD_EXIT_MODE`, `CMD_ATTENTION` and the unknown commands answer nothing.
  unfoldable pub ack_command : ℕ → ℕ → Option (ℕ × AmodeData) → List ℕ → M B (ℤ × List ℕ)
  unfolding ack_identity ack_svids ack_modes ack_enter ack_status ack_config
  ack_command cmd cnt modep payload =
      if cmd == Cmd.cmd_discover_ident
      then ack_identity cnt payload
      else if cmd == Cmd.cmd_discover_svid
      then ack_svids payload
      else if cmd == Cmd.cmd_discover_modes
      then ack_modes cnt payload
      else if cmd == Cmd.cmd_enter_mode
      then ack_enter modep payload
      else if cmd == Cmd.cmd_dp_status
      then ack_status modep payload
      else if cmd == Cmd.cmd_dp_config
      then ack_config modep payload
      else pure (pos 0, payload)

  unfoldable pub svdm_ack : ℕ → ℕ → List ℕ → M B (ℤ × List ℕ)
  unfolding ack_command get_modep
  svdm_ack cmd cnt payload = do
    modep ← get_modep b (vdo_vid (get_or payload 0 0))
    ack_command cmd cnt modep payload

  -- A discovery that the partner is too busy for is sent again.
  abbrev busy_size : ℕ → ℤ
  busy_size cmd =
      if cmd == Cmd.cmd_discover_ident
        || cmd == Cmd.cmd_discover_svid
        || cmd == Cmd.cmd_discover_modes
      then pos 1
      else pos 0

  -- The size of the message to send, 0 for none, and the message.
  unfoldable pub pd_svdm : ℕ → List ℕ → M B (ℤ × List ℕ)
  unfolding svdm_init svdm_ack dfp_consume_attention vdo_cmd vdo_cmdt
  pd_svdm cnt payload =
      let head = get_or payload 0 0 in
      let cmd = vdo_cmd head in
      let type = vdo_cmdt head in
      let asked = set payload 0 (clear_bits head vdo_cmdt_mask) in
      if type == Cmd.cmdt_init
      then (if cmd == Cmd.cmd_attention
          then (dfp_consume_attention b asked >>= λ q. pure (pos 0, q))
          else svdm_init cmd asked)
      else if type == Cmd.cmdt_rsp_ack
      then svdm_ack cmd cnt asked
      else if type == Cmd.cmdt_rsp_busy
      then pure (busy_size cmd, asked)
      else pure (pos 0, asked)
