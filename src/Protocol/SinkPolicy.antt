-- ===== src/Protocol/SinkPolicy.antt =====
-- The policy of a sink in USB Power Delivery, as an abstract machine: which messages move it, from
-- which state, and to which. NOA_ESP32_PD/usb_pd_protocol.cpp implements it in `handle_request`.
use noa_esp32_pd.Base.{ℕ, ◌==◌, ◌&&◌, ◌||◌, not, Bool, true, false, if◌then◌else◌, ◌≡◌, ◌≢◌}
use noa_esp32_pd.Message.Types.Ctrl
use noa_esp32_pd.Message.Types.DataMsg
use noa_esp32_pd.Protocol.Port.{
  PdState, snk_discovery, snk_requested, snk_transition, snk_ready, snk_disconnected, src_ready,
  src_get_sink_cap, soft_reset, hard_reset_send,
}
use noa_esp32_pd.Protocol.Core.{same_state}

-- What a message is to a sink.
pub data Input : Type 0 where
  offer accepted refused deferred power_ready reset_request test caps misplaced_request others :
      Input

-- A message with data objects, and one without, by its type.
abbrev pub data_input : ℕ → Input
data_input type =
    if type == DataMsg.source_cap
    then offer
    else if type == DataMsg.request
    then misplaced_request
    else if type == DataMsg.bist
    then test
    else if type == DataMsg.sink_cap
    then caps
    else others

abbrev pub ctrl_input : ℕ → Input
ctrl_input type =
    if type == Ctrl.accept
    then accepted
    else if type == Ctrl.reject
    then refused
    else if type == Ctrl.wait
    then deferred
    else if type == Ctrl.ps_rdy
    then power_ready
    else if type == Ctrl.soft_reset
    then reset_request
    else others

-- The states in which a sink does not listen.
abbrev pub hears : PdState → Bool
hears s =
    not (same_state s PdState.disabled)
    && not (same_state s snk_disconnected)
    && not (same_state s PdState.snk_disconnected_debounce)

-- What a sink that listens must not ignore, with an explicit contract or without one. An offer may
-- find that the request cannot be sent, and a test may be one that it does not take part in.
abbrev pub must_act : Input → Bool → PdState → Bool
must_act accepted contract s = same_state s soft_reset || same_state s snk_requested
must_act refused contract s = same_state s snk_requested
must_act deferred contract s = same_state s snk_requested && not contract
must_act power_ready contract s = true
must_act reset_request contract s = true
must_act misplaced_request contract s = true
must_act caps contract s = same_state s src_get_sink_cap
must_act _ contract s = false

-- The steps of the policy, with an explicit contract or without one. The power is in transition only
-- after a request that was accepted, and a request is out only after an offer; a request that is
-- refused leads back to the power of the contract, or without a contract to the discovery; one that
-- is deferred waits while there is a contract; a soft reset starts the discovery again. The last two
-- steps lead to a state of a source: the code takes a sink there on a REQUEST, which only a source
-- should get, and back there on the capabilities of a sink that it then asks for.
pub data SinkStep (contract : Bool) : Input → PdState → PdState → Type 0 where
  unheard : (i : Input) (s : PdState) → hears s ≡ false → SinkStep contract i s s
  ignored : (i : Input) (s : PdState) → must_act i contract s ≡ false → SinkStep contract i s s
  asks_first : SinkStep contract offer snk_discovery snk_requested
  asks_anew : SinkStep contract offer snk_ready snk_requested
  asks_instead : SinkStep contract offer snk_transition snk_requested
  goes_over : SinkStep contract accepted snk_requested snk_transition
  is_reset : SinkStep contract accepted soft_reset snk_discovery
  keeps_power : contract ≡ true → SinkStep contract refused snk_requested snk_ready
  gets_none : contract ≡ false → SinkStep contract refused snk_requested snk_discovery
  starts_again : contract ≡ false → SinkStep contract deferred snk_requested snk_discovery
  too_early : SinkStep contract power_ready snk_discovery hard_reset_send
  is_ready : (s : PdState) → s ≢ snk_discovery → SinkStep contract power_ready s snk_ready
  resets : (s : PdState) → SinkStep contract reset_request s snk_discovery
  tested : SinkStep contract test snk_ready snk_disconnected
  answered : SinkStep contract caps src_get_sink_cap src_ready
  strays : (s : PdState) → SinkStep contract misplaced_request s src_ready
