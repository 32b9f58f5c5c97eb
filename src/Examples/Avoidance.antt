-- ===== src/Examples/Avoidance.antt =====
-- A message that a sink of revision 3.0 holds back, at a concrete input.
use noa_esp32_pd.Base.{ℕ, ◌+◌, ◌==◌, true, false, if◌then◌else◌, ◌≡◌, refl, [], ◌∷◌}
use noa_esp32_pd.Base.Bits.{has}
use noa_esp32_pd.Base.Int.{pos, is_neg}
use noa_esp32_pd.Fusb302.Chip.{Chip, EcError}
use noa_esp32_pd.Fusb302.Frame.{Received, sop}
use noa_esp32_pd.Protocol.Flags
use noa_esp32_pd.Protocol.Port.{TcpmDrv}
use noa_esp32_pd.Protocol.Core.{has_flag}
use noa_esp32_pd.Protocol.Transmit.{tx_result}
use noa_esp32_pd.Protocol.Rev30.Avoid.{Port30, avoids, pd_transmit_rev30, pd_ca_send_pending}
use noa_esp32_pd.Protocol.Rev30.Held.{after_cc, ng_at, at_chip, held, send_pending-held}
use noa_esp32_pd.Sketch.{power_on_port}
use noa_esp32_pd.Examples.Drivers.{quiet_bus, counting}

-- A driver that says no at the first reading of the lines; it counts the readings and notes a
-- transmission in two fields of the chip that it does not use otherwise.
abbrev say : Chip → Chip × (ℕ × ℕ)
say s = (record s { mdac_vnc = s.mdac_vnc + 1 }, (if s.mdac_vnc == 0 then (6, 0) else (7, 0)))

abbrev talker : TcpmDrv Chip
talker = record {
  init = λ s. (s, EcError.success);
  release = λ s. (s, EcError.success);
  get_cc = λ a b s. say s;
  select_rp_value = λ v s. (s, EcError.success);
  set_cc = λ v s. (s, EcError.success);
  set_polarity = λ v s. (s, EcError.success);
  set_msg_header = λ a b s. (s, EcError.success);
  set_rx_enable = λ e s. (s, EcError.success);
  get_message = λ s. (s, Received.nothing);
  transmit = λ t h d s. (record s { mdac_rd = s.mdac_rd + 1 }, EcError.success);
}

abbrev contracted : Port30 Chip
contracted =
    let w = power_on_port quiet_bus counting in
    record {
      port = record w { flags = Flags.explicit_contract };
      rev = 2;
      ca_buffered = false;
      ca_header = 0;
      ca_buffer = 0 ∷ 0 ∷ 0 ∷ 0 ∷ 0 ∷ 0 ∷ 0 ∷ [];
      ca_type = sop;
    }

contract_avoids : avoids contracted ≡ true
unfolding avoids has_flag has
contract_avoids = refl

-- A request of one object.
send_pending-held_example :
    let q = held talker sop 0x1082 (0x1912c ∷ []) contracted in
    let s1 = after_cc talker contracted.port.tcpc in
    let s2 = after_cc talker s1 in
    let s3 = after_cc talker s2 in
    (pd_transmit_rev30 talker sop 0x1082 (0x1912c ∷ []) contracted ≡ (q, pos 1))
    × (pd_ca_send_pending talker q ≡ (
        if ng_at talker s1
        then at_chip talker s2 false q
        else if ng_at talker s2
        then at_chip talker s3 true q
        else at_chip talker
            (talker.transmit sop 0x1082 q.ca_buffer s3).0
            (is_neg (tx_result contracted.port.tx_status))
            q))
send_pending-held_example =
    send_pending-held talker sop 0x1082 (0x1912c ∷ []) contracted contract_avoids refl refl refl
      refl
