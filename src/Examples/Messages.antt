-- ===== src/Examples/Messages.antt =====
-- The theorems on messages, requests and timers at concrete inputs.
use noa_esp32_pd.Base.{
  suc, drop, ℕ, ◌+◌, ◌-◌, ◌*◌, ◌/◌, ◌%◌, ◌^◌, ◌≤◌, ◌<◌, ◌==◌, ltb, ◌≡◌, refl, true, false, ◌||◌,
  List, [], ◌∷◌, ◌++◌, if◌then◌else◌, arith, get_or, length, take, bit_and,
}
use noa_esp32_pd.Board.Clock.{get_time}
use noa_esp32_pd.Fusb302.Chip.{Chip, success}
use noa_esp32_pd.Fusb302.Frame.{copy_words, read_packet, message_bytes, sop_bytes, sop}
use noa_esp32_pd.Fusb302.Packets.{are_words, length-message}
use noa_esp32_pd.Fusb302.RoundTrip.{replies, sent-received}
use noa_esp32_pd.Message.Header.{
  pd_header, header_cnt, header_type, header_id, header_rev, header_ext,
}
use noa_esp32_pd.Message.Layout.{pd_header_fields}
use noa_esp32_pd.Message.Objects.{pdo_type, pdo_type_battery, rdo_pos}
use noa_esp32_pd.Message.Types.DataMsg
use noa_esp32_pd.Policy.Power.{pd_extract_pdo_power, check_requested_voltage}
use noa_esp32_pd.Policy.Request.{request_of, store_caps}
use noa_esp32_pd.Policy.Bounds.{power-bounds, request-fields, request-accepted}
use noa_esp32_pd.Message.Vdos.{
  vdo_info, info_hw_dev_id, info_sw_dbg_ver, info_is_rw, hw_dev_id_maj, hw_dev_id_min,
}
use noa_esp32_pd.Message.Answers.{info_fields}
use noa_esp32_pd.Protocol.Flags
use noa_esp32_pd.Protocol.Port.{
  Port, TcpmDrv, snk_discovery, snk_requested, snk_transition, snk_ready, hard_reset_send,
}
use noa_esp32_pd.Protocol.Core.{read_time, in_state, same_state, index, has_flag}
use noa_esp32_pd.Protocol.Transmit.{port_header}
use noa_esp32_pd.Protocol.Negotiate.{on_source_cap}
use noa_esp32_pd.Protocol.Control.{handle_request}
use noa_esp32_pd.Protocol.Run.{check_timeout}
use noa_esp32_pd.Protocol.StateChange.{timer_past_wrap}
use noa_esp32_pd.Protocol.Negotiation.{source_cap-requests, contract-reached}
use noa_esp32_pd.Sketch.{power_on_port, fusb302_tcpm_drv}
use noa_esp32_pd.Examples.Drivers.{quiet_bus, counting}

abbrev drv : TcpmDrv Chip
drv = fusb302_tcpm_drv 3

-- 5 V at 3 A
abbrev five_volts : ℕ
five_volts = 0x1912c

abbrev discovering : Port Chip
discovering = record (power_on_port quiet_bus counting) { task_state = snk_discovery }

abbrev offer : List ℕ
offer = five_volts ∷ []

is_offer : header_type 0x1001 ≡ 1
unfolding header_type
is_offer = refl

offer_cnt : header_cnt 0x1001 ≡ 1
unfolding header_cnt
offer_cnt = refl

offer_objects : (header_cnt 0x1001 == 0) ≡ false
unfolding header_cnt
offer_objects = refl

is_accept : header_type 3 ≡ 3
unfolding header_type
is_accept = refl

accept_cnt : header_cnt 3 ≡ 0
unfolding header_cnt
accept_cnt = refl

is_ps_rdy : header_type 6 ≡ 6
unfolding header_type
is_ps_rdy = refl

ps_rdy_cnt : header_cnt 6 ≡ 0
unfolding header_cnt
ps_rdy_cnt = refl

contract-reached_example :
    let caps = store_caps (header_cnt 0x1001) 0 offer discovering.pd_src_caps in
    let rdo = (request_of 0 (get_or caps 0 0)).0 in
    let a = handle_request drv 0x1001 offer discovering in
    let b = handle_request drv 3 [] a in
    let c = handle_request drv 6 [] b in
    (a.task_state ≡ snk_requested)
    × (a.tcpc
        ≡ (drv.transmit sop
            (port_header DataMsg.request 1 discovering)
            (rdo ∷ [])
            discovering.tcpc).0)
    × (b.task_state ≡ snk_transition)
    × (has_flag b Flags.explicit_contract ≡ true)
    × (c.task_state ≡ snk_ready)
    × (has_flag c Flags.explicit_contract ≡ true)
    × (c.tcpc ≡ a.tcpc)
contract-reached_example =
    contract-reached drv 0x1001 3 6 offer [] [] discovering refl refl refl is_offer offer_objects
      is_accept accept_cnt is_ps_rdy ps_rdy_cnt

awaiting :
    (in_state discovering snk_discovery
      || in_state discovering snk_transition
      || in_state discovering snk_ready)
    ≡ true
unfolding in_state same_state index
awaiting = refl

source_cap-requests_example :
    let caps = store_caps 1 0 offer discovering.pd_src_caps in
    let r = request_of 0 (get_or caps 0 0) in
    let v = on_source_cap drv 1 offer discovering in
    (v.task_state ≡ snk_requested)
    × (v.tcpc
        ≡ (drv.transmit sop
            (port_header DataMsg.request 1 discovering)
            (r.0 ∷ [])
            discovering.tcpc).0)
    × (v.curr_limit ≡ r.1)
    × (v.supply_voltage ≡ r.2)
    × (v.pd_src_caps ≡ caps)
    × (v.pd_source_cap_max_index ≡ 1 - 1)
    × (v.power_role ≡ discovering.power_role)
    × (v.tx_status ≡ discovering.tx_status)
source_cap-requests_example = source_cap-requests drv 1 offer discovering awaiting refl

-- A timer of 100 ms at time 0.
abbrev waiting : Port Chip
waiting = record discovering { state_timeout = 100000; timeout_state = hard_reset_send }

not_due : (read_time waiting).1 < 100000
unfolding read_time get_time
not_due = omega arith

abbrev past_wrap : Port Chip
past_wrap = record discovering { state_timeout = 2 ^ 32 + 5000 }

timer_past_wrap_example :
    ((check_timeout drv past_wrap).task_state ≡ snk_discovery)
    × ((check_timeout drv past_wrap).state_timeout ≡ 2 ^ 32 + 5000)
timer_past_wrap_example = timer_past_wrap drv past_wrap (omega arith)

not_battery : (pdo_type five_volts == pdo_type_battery) ≡ false
unfolding pdo_type
not_battery = refl

power-bounds_example :
    ((pd_extract_pdo_power five_volts).0 ≤ 5000)
    × ((pd_extract_pdo_power five_volts).1 ≤ 51150)
    × ((pd_extract_pdo_power five_volts).0 * (pd_extract_pdo_power five_volts).1 ≤ 60000000)
power-bounds_example = power-bounds five_volts

request-fields_example :
    let r = request_of 0 five_volts in
    (rdo_pos r.0 ≡ 1)
    × (bit_and (r.0 / 2 ^ 10) 0x3ff ≤ bit_and five_volts 0x3ff)
    × (bit_and r.0 0x3ff ≤ bit_and five_volts 0x3ff)
    × (r.0 / 2 ^ 26 % 4 ≡ (if ltb (r.1 * r.2) 2250000 then 1 else 0))
request-fields_example = request-fields 0 five_volts (omega arith) not_battery

request-accepted_example : check_requested_voltage offer 1 (request_of 0 five_volts).0 ≡ success
request-accepted_example = request-accepted offer 1 0 (omega arith) (omega arith) not_battery

offer_words : are_words offer ≡ true
unfolding are_words
offer_words = refl

-- A chip whose FIFO holds this offer.
abbrev offered_chip : Chip
offered_chip = record discovering.tcpc {
  bus = record {
    sent = [];
    answer = λ n. get_or (0xe0 ∷ 0x01 ∷ 0x10 ∷ 0x2c ∷ 0x91 ∷ 0x01 ∷ 0 ∷ []) n 0;
    asked = 0;
  };
}

offer-replies :
    replies offered_chip.bus.answer 1 (suc (suc (4 * header_cnt 0x1001)))
    ≡ take (suc (suc (4 * header_cnt 0x1001))) (drop 1 (message_bytes 0x1001 offer))
unfolding replies header_cnt message_bytes
offer-replies = refl

sent-received_example :
    let p = (read_packet offered_chip).1 in
    (p.0 ≡ 0x1001) × (copy_words p.1 (7 ∷ 8 ∷ []) ≡ five_volts ∷ 8 ∷ [])
sent-received_example =
    sent-received 0x1001 offer (7 ∷ 8 ∷ []) offered_chip (omega arith) offer_cnt offer_words
      (omega arith) offer-replies

length-message_example :
    let buf = sop_bytes ++ message_bytes 0x1001 offer in
    (length buf ≡ 12 + 4 * header_cnt 0x1001) × (length buf ≤ 40)
length-message_example = length-message 0x1001 offer (omega (arith, offer_cnt))

pd_header_fields_example :
    let h = pd_header 2 0 1 5 1 1 0 in
    (header_type h ≡ 2)
    × (header_id h ≡ 5)
    × (header_rev h ≡ 1)
    × (header_cnt h ≡ 1)
    × (header_ext h ≡ 0)
pd_header_fields_example =
    pd_header_fields 2 0 1 5 1 1 (omega arith) (omega arith) (omega arith) (omega arith)
      (omega arith) (omega arith)

info_fields_example :
    let v = vdo_info 3 1 1000 1 in
    (hw_dev_id_maj (info_hw_dev_id v) ≡ 3)
    × (hw_dev_id_min (info_hw_dev_id v) ≡ 1)
    × (info_sw_dbg_ver v ≡ 1000)
    × (info_is_rw v ≡ 1)
info_fields_example = info_fields 3 1 1000 1 (omega arith)
