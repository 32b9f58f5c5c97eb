-- ===== src/Protocol/Rev30/Held.antt =====
-- NOA_ESP32_PD/usb_pd_protocol.cpp: what becomes of a message that a sink holds back.
use noa_esp32_pd.Base.{
  taken, not_taken, ℕ, ◌&&◌, not, Bool, true, false, if◌then◌else◌, ◌≡◌, refl, ap, ◌∙◌, List, ◌++◌,
  take, drop,
}
use noa_esp32_pd.Base.Int.{ℤ, pos, negsuc, is_neg}
use noa_esp32_pd.Fusb302.Frame.{TransmitType}
use noa_esp32_pd.Message.Header.{header_cnt}
use noa_esp32_pd.Protocol.Port.{TcpmDrv}
use noa_esp32_pd.Protocol.Core.{is_source, has_flag}
use noa_esp32_pd.Protocol.Transmit.{pd_transmit, tx_result}
use noa_esp32_pd.Protocol.Rev30.Avoid.{
  Port30, is_hard_reset, says_ng, avoids, hold, read_cc, send_now, send_as_sink, pd_transmit_rev30,
  send_pending, pd_ca_send_pending,
}

by_branch :
    {A : Type 0} (b : Bool) (x x' y y' : A)
    → x ≡ x'
    → y ≡ y'
    → (if b then x else y) ≡ (if b then x' else y')
by_branch true x x' y y' e f = e
by_branch false x x' y y' e f = f

through_if :
    {A C : Type 0} (f : A → C) (b : Bool) (x y : A)
    → f (if b then x else y) ≡ (if b then f x else f y)
through_if f true x y = refl
through_if f false x y = refl

and_false : (a b : Bool) → b ≡ false → (a && b) ≡ false
and_false true b e = e
and_false false b e = refl

module _ {S : Type 0} (drv : TcpmDrv S) where
  -- The chip after a reading of the lines, and what was read.
  abbrev pub after_cc : S → S
  after_cc s = (drv.get_cc 0 0 s).0

  abbrev pub ng_at : S → Bool
  ng_at s = says_ng (drv.get_cc 0 0 s).1

  -- The port with another chip, and its message kept or not.
  abbrev pub at_chip : S → Bool → Port30 S → Port30 S
  at_chip s kept p = let w = p.port in record p { port = record w { tcpc = s }; ca_buffered = kept }

  -- A message that a sink holds back, for the lines say that it must not send.
  abbrev pub held : TransmitType → ℕ → List ℕ → Port30 S → Port30 S
  held type header data' p =
      let n = header_cnt header in
      let q = at_chip (after_cc p.port.tcpc) true p in
      record q {
        ca_type = type;
        ca_header = header;
        ca_buffer = take n data' ++ drop n p.ca_buffer;
      }

  -- How a sink with a contract sends what is no hard reset.
  as_sink :
      (type : TransmitType) (header : ℕ) (data' : List ℕ) (p : Port30 S)
      → avoids p ≡ true
      → is_source p.port.power_role ≡ false
      → is_hard_reset type ≡ false
      → pd_transmit_rev30 drv type header data' p ≡ send_as_sink drv type header data' p
  unfolding pd_transmit_rev30
  as_sink type header data' p ha hr ht =
      not_taken (not (avoids p)) _ _ (ap not ha)
      ∙ not_taken (is_source p.port.power_role) _ _ hr
      ∙ not_taken (is_hard_reset type) _ _ ht

  holds_back :
      (type : TransmitType) (header : ℕ) (data' : List ℕ) (p : Port30 S)
      → avoids p ≡ true
      → is_source p.port.power_role ≡ false
      → is_hard_reset type ≡ false
      → p.ca_buffered ≡ false
      → ng_at p.port.tcpc ≡ true
      → pd_transmit_rev30 drv type header data' p ≡ (held type header data' p, pos 1)
  unfolding send_as_sink read_cc hold
  holds_back type header data' p ha hr ht hb hg =
      as_sink type header data' p ha hr ht
      ∙ taken (ng_at p.port.tcpc) _ _ hg
      ∙ not_taken p.ca_buffered _ _ hb

  sends_now :
      (type : TransmitType) (header : ℕ) (data' : List ℕ) (p : Port30 S)
      → is_source p.port.power_role ≡ false
      → send_now drv type header data' p ≡ (
        at_chip (drv.transmit type header data' p.port.tcpc).0 p.ca_buffered p,
        tx_result p.port.tx_status,
      )
  unfolding send_now pd_transmit
  sends_now type header data' p hr =
      let r = pd_transmit drv type header data' p.port in
      let q = record p { port = r.0 } in
      not_taken (avoids q && is_source q.port.power_role) _ _
        (and_false (avoids q) (is_source q.port.power_role) hr)

  -- Sending the message that is kept: the lines are read again.
  resends :
      (q : Port30 S)
      → avoids q ≡ true
      → is_source q.port.power_role ≡ false
      → is_hard_reset q.ca_type ≡ false
      → q.ca_buffered ≡ true
      → let s = after_cc q.port.tcpc in
        pd_transmit_rev30 drv q.ca_type q.ca_header q.ca_buffer q ≡ (
          if ng_at q.port.tcpc then (at_chip s q.ca_buffered q, negsuc 0) else (
            at_chip (drv.transmit q.ca_type q.ca_header q.ca_buffer s).0 q.ca_buffered q,
            tx_result q.port.tx_status,
          ))
  unfolding send_as_sink read_cc hold
  resends q ha hr ht hb =
      let v = at_chip (after_cc q.port.tcpc) q.ca_buffered q in
      as_sink q.ca_type q.ca_header q.ca_buffer q ha hr ht
      ∙ by_branch (ng_at q.port.tcpc) _ _ _ _ (taken q.ca_buffered _ _ hb)
          (sends_now q.ca_type q.ca_header q.ca_buffer v hr)

  -- What `pd_ca_send_pending` makes of the result of the transmission.
  abbrev settle : Port30 S × ℤ → Port30 S
  settle r = if is_neg r.1 then r.0 else record (r.0) { ca_buffered = false }

  settled : (s : S) (n : ℤ) (p : Port30 S) → settle (at_chip s true p, n) ≡ at_chip s (is_neg n) p
  settled s (pos n) p = refl
  settled s (negsuc n) p = refl

  avoids-held :
      (s : S) (type : TransmitType) (header : ℕ) (data' : List ℕ) (p : Port30 S)
      → avoids (at_chip s true (held type header data' p)) ≡ avoids p
  unfolding avoids has_flag
  avoids-held s type header data' p = refl

  -- A sink with a revision 3.0 contract, with no message kept back, sends a message that is no hard
  -- reset while the source says that it must not: the sender is told that it was sent, the message
  -- is kept and nothing goes out. The next `pd_ca_send_pending` reads the lines. If the source
  -- still says no, the message is dropped. Else it reads them again: if the source now says no,
  -- the message is kept; if not, the message goes out, with the objects that its header counts in
  -- front, and it is kept only where the status is that of a failure.
  pub send_pending-held :
      (type : TransmitType) (header : ℕ) (data' : List ℕ) (p : Port30 S)
      → avoids p ≡ true
      → is_source p.port.power_role ≡ false
      → is_hard_reset type ≡ false
      → p.ca_buffered ≡ false
      → ng_at p.port.tcpc ≡ true
      → let q = held type header data' p in
        let s1 = after_cc p.port.tcpc in
        let s2 = after_cc s1 in
        let s3 = after_cc s2 in
        (pd_transmit_rev30 drv type header data' p ≡ (q, pos 1))
        × (pd_ca_send_pending drv q ≡ (
            if ng_at s1
            then at_chip s2 false q
            else if ng_at s2
            then at_chip s3 true q
            else at_chip
                (drv.transmit type header q.ca_buffer s3).0
                (is_neg (tx_result p.port.tx_status))
                q))
  unfolding pd_ca_send_pending send_pending read_cc
  send_pending-held type header data' p ha hr ht hb hg =
      let q = held type header data' p in
      let s1 = after_cc p.port.tcpc in
      let s2 = after_cc s1 in
      let s3 = after_cc s2 in
      let v = at_chip s2 true q in
      let t = (drv.transmit type header q.ca_buffer s3).0 in
      (
        holds_back type header data' p ha hr ht hb hg,
        by_branch (ng_at s1) _ _ _ _ refl (
            ap settle (resends v (avoids-held s2 type header data' p ∙ ha) hr ht refl)
            ∙ through_if settle (ng_at s2) _ _
            ∙ by_branch (ng_at s2) _ _ _ _ refl (settled t (tx_result p.port.tx_status) v)),
      )
