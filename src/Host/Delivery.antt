-- ===== src/Host/Delivery.antt =====
-- NOA_ESP32_PD/usb_pd_protocol.cpp: what `hc_remote_flash` writes arrives whole and in order.
use noa_esp32_pd.Base.{
  taken, ℕ, zero, suc, ◌+◌, ◌-◌, ◌*◌, ◌/◌, ◌%◌, ◌^◌, ◌≤◌, ◌<◌, min, ltb, leb, lt→ltb, Bool-cases,
  inl, inr, ◌==◌, true, false, if◌then◌else◌, ◌≡◌, refl, sym, ap, ◌∙◌, List, ◌++◌, append_assoc,
  append-nil, some, length, get_or, set, take, drop, get_or-set_self, length-set, length-drop,
  take-append-drop, arith,
}
use noa_esp32_pd.Base.Options.{◌>>=◌, bind-some}
use noa_esp32_pd.Board.Clock.{get_time}
use noa_esp32_pd.Message.Objects.{vdo}
use noa_esp32_pd.Message.Types.Vdm as Cmd
use noa_esp32_pd.Policy.Request.{store_caps}
use noa_esp32_pd.Policy.Stored.{length-store_caps, store_caps-before, store_caps-found}
use noa_esp32_pd.Protocol.Port.{Clock, Port, vdm_done, vdm_ready}
use noa_esp32_pd.Protocol.Core.{msec, read_time}
use noa_esp32_pd.Protocol.Vdm.{pd_send_vdm}
use noa_esp32_pd.Host.Result.{EcResult}
use noa_esp32_pd.Host.Flash.{
  FwCmd, FwUpdate, vdm_pending, wait_vdm, wait_vdm_for, write_chunks, run_update, hc_remote_flash,
}

-- The clock after one more reading, and what that reading gives.
abbrev pub ticked : Clock → Clock
ticked k = record { millis = k.millis; micros = k.micros; calls = k.calls + 1 }

unfoldable pub reading : Clock → ℕ
unfolding get_time
reading k = get_time (k.millis k.calls) (k.micros k.calls)

-- The header of the messages that carry words.
unfoldable pub write_header : ℕ
unfolding vdo
write_header = vdo Cmd.usb_vid_google 0 Cmd.vdo_cmd_flash_write

-- The words behind the header of the message that is queued.
abbrev pub queued : {S : Type 0} → Port S → List ℕ
queued w = take (w.vdo_count - 1) (drop 1 w.vdo_data)

-- The other tasks deliver a queued message of words while the command waits once, `received` being
-- the words that have arrived. `Ok` is what they need of the chip and the clock; the readings of
-- the clock before and after a loop begins are less than the 500 ms apart.
pub record Delivers {S : Type 0} (others : Port S → Port S) (Ok : S → Clock → Type 0)
    (received : S → List ℕ) : Type 0 where
  pub reads : (s : S) (k : Clock) → Ok s k → Ok s (ticked k)
  pub in_time : (s : S) (k : Clock) → Ok s k → reading (ticked k) < reading k + msec 500
  pub delivers :
      (w : Port S)
      → Ok w.tcpc w.clock
      → w.vdm_state ≡ vdm_ready
      → get_or w.vdo_data 0 0 ≡ write_header
      → length w.vdo_data ≡ 7
      → let v = others w in
        ((v.vdm_state ≡ vdm_done) × (length v.vdo_data ≡ 7))
        × (Ok v.tcpc v.clock × (received v.tcpc ≡ received w.tcpc ++ queued w))

-- The port with a message of words queued.
abbrev pub message : {S : Type 0} → List ℕ → ℕ → Port S → Port S
message words n w = record w {
  vdo_count = n + 1;
  vdo_data = store_caps n 1 words (set w.vdo_data 0 write_header);
  vdm_state = vdm_ready;
}

-- At most 6 words are queued.
pub sent :
    {S : Type 0} (words : List ℕ) (n : ℕ) (w : Port S)
    → n ≤ 6
    → pd_send_vdm Cmd.usb_vid_google Cmd.vdo_cmd_flash_write words n w ≡ message words n w
unfolding pd_send_vdm write_header
sent words n w h =
    let small : ltb 6 n ≡ false = ground arith in
    let count : (n + 1) % 256 ≡ n + 1 = omega arith in rw (small, count) refl

-- The first six words of some, and the others.
first_six :
    (n : ℕ) (words : List ℕ) → take (min n 6) words ++ take (n - 6) (drop 6 words) ≡ take n words
first_six n words = elim (Bool-cases (leb n 6)) [
  | inl h ↦
      let short : min n 6 ≡ n = ground arith in
      let none_left : n - 6 ≡ 0 = ground arith in rw (none_left, short) (append-nil (take n words))
  | inr h ↦
      let long : min n 6 ≡ 6 = ground arith in
      rw (long) (take-append-drop 6 (n - 6) n words (ground arith))
]

-- What is queued is what was given.
pub queued_lem :
    (words table : List ℕ) (n : ℕ)
    → n ≤ 6
    → n ≤ length words
    → length table ≡ 7
    → take (n + 1 - 1) (drop 1 (store_caps n 1 words (set table 0 write_header))) ≡ take n words
queued_lem words table n small enough h =
    let t = store_caps n 1 words (set table 0 write_header) in
    let count : n + 1 - 1 ≡ n = omega arith in
    ap (λ k. take k (drop 1 t)) count
    ∙ store_caps-found n 1 words (set table 0 write_header)
        (omega (arith, h, length-set table 0 write_header)) enough

header_lem :
    (words table : List ℕ) (n : ℕ)
    → length table ≡ 7
    → get_or (store_caps n 1 words (set table 0 write_header)) 0 0 ≡ write_header
header_lem words table n h =
    store_caps-before n 1 0 words (set table 0 write_header) (omega arith)
    ∙ get_or-set_self table 0 write_header 0 (omega arith)

module _ {S : Type 0} (others : Port S → Port S) where
  wait_done :
      (fuel timeout : ℕ) (w : Port S)
      → w.vdm_state ≡ vdm_done
      → wait_vdm others (suc fuel) timeout w ≡ some w
  unfolding wait_vdm
  wait_done fuel timeout w h = rw (wait_vdm, h) refl

  -- The port when it has waited once.
  abbrev waited : Port S → Port S
  waited w = others (record w { clock = ticked (ticked w.clock) })

  pub wait_again :
      (fuel timeout : ℕ) (w : Port S)
      → vdm_pending w.vdm_state ≡ true
      → ltb (reading w.clock) timeout ≡ true
      → wait_vdm others (suc fuel) timeout w
        ≡ wait_vdm others fuel timeout (others (record w { clock = ticked w.clock }))
  unfolding wait_vdm reading read_time
  wait_again fuel timeout w h g =
      let v : Port S = record w { clock = ticked w.clock } in
      let rest = wait_vdm others fuel timeout (others v) in
      taken (vdm_pending w.vdm_state) (if ltb (reading w.clock) timeout then rest else some v)
        (some w) h
      ∙ taken (ltb (reading w.clock) timeout) rest (some v) g

  wait_once :
      (fuel : ℕ) (w : Port S)
      → w.vdm_state ≡ vdm_ready
      → reading (ticked w.clock) < reading w.clock + msec 500
      → (waited w).vdm_state ≡ vdm_done
      → wait_vdm_for others (suc (suc fuel)) (msec 500) w ≡ some (waited w)
  unfolding wait_vdm_for reading read_time vdm_pending
  wait_once fuel w ready h done =
      let limit = reading w.clock + msec 500 in
      wait_again (suc fuel) limit (record w { clock = ticked w.clock }) (ap vdm_pending ready)
        (lt→ltb (reading (ticked w.clock)) limit h)
      ∙ wait_done fuel limit (waited w) done

module _ {S : Type 0} (others : Port S → Port S) (Ok : S → Clock → Type 0) (received : S → List ℕ)
    (d : Delivers others Ok received) where
  -- What a port must be for a message to be sent from it.
  abbrev IsReady : Port S → Type 0
  IsReady w = Ok w.tcpc w.clock × (length w.vdo_data ≡ 7)

  one_message :
      (fuel : ℕ) (words : List ℕ) (n : ℕ) (w : Port S)
      → n ≤ 6
      → n ≤ length words
      → IsReady w
      → let m = message words n w in
        let u = waited others m in
        (wait_vdm_for others (suc (suc fuel)) (msec 500) m ≡ some u)
        × ((IsReady u × (u.vdm_state ≡ vdm_done))
            × (received u.tcpc ≡ received w.tcpc ++ take n words))
  one_message fuel words n w small enough (ok, seven) =
      let m = message words n w in
      let table = set w.vdo_data 0 write_header in
      let q =
        d.delivers (record m { clock = ticked (ticked m.clock) })
          (d.reads m.tcpc (ticked m.clock) (d.reads m.tcpc m.clock ok)) refl
          (header_lem words w.vdo_data n seven)
          (length-store_caps n 1 words table ∙ length-set w.vdo_data 0 write_header ∙ seven) in
      (
        wait_once others fuel m refl (d.in_time m.tcpc m.clock ok) q.0.0,
        (
          ((q.1.0, q.0.1), q.0.0),
          q.1.1 ∙ ap (λ l. received w.tcpc ++ l) (queued_lem words w.vdo_data n small enough seven),
        ),
      )

  one_chunk :
      (rounds fuel : ℕ) (words : List ℕ) (l : ℕ) (w u : Port S)
      → wait_vdm_for others fuel
          (msec 500)
          (pd_send_vdm Cmd.usb_vid_google Cmd.vdo_cmd_flash_write words (min (suc l) 6) w)
        ≡ some u
      → u.vdm_state ≡ vdm_done
      → write_chunks others (suc rounds) fuel words (suc l) w
        ≡ write_chunks others rounds fuel (drop 6 words) (suc l - 6) u
  unfolding write_chunks vdm_pending
  one_chunk rounds fuel words l w u h done =
      let more : (suc l == 0) ≡ false = ground arith in
      let v = pd_send_vdm Cmd.usb_vid_google Cmd.vdo_cmd_flash_write words (min (suc l) 6) w in
      let rest = λ (u : Port S). write_chunks others rounds fuel (drop 6 words) (suc l - 6) u in
      let go =
        λ (u : Port S). if vdm_pending u.vdm_state then some (u, EcResult.timeout) else rest u in
      ap
        (λ b. elim b [
          | true ↦ some (w, EcResult.success)
          | false ↦ wait_vdm_for others fuel (msec 500) v >>= go
        ])
        more
      ∙ bind-some (wait_vdm_for others fuel (msec 500) v) go u h
      ∙ ap (λ s. if vdm_pending s then some (u, EcResult.timeout) else rest u) done

  writes :
      (rounds fuel : ℕ) (words : List ℕ) (left : ℕ) (w : Port S)
      → left ≤ rounds
      → left ≤ length words
      → IsReady w
      → (v : Port S) × ((write_chunks others rounds (suc (suc fuel)) words left w
            ≡ some (v, EcResult.success))
          × (received v.tcpc ≡ received w.tcpc ++ take left words))
  unfolding write_chunks
  writes zero fuel words zero w h g ready = (w, (refl, sym (append-nil _)))
  writes (suc rounds) fuel words zero w h g ready = (w, (refl, sym (append-nil _)))
  writes zero fuel words (suc l) w h g ready = absurd (omega arith)
  writes (suc rounds) fuel words (suc l) w h g ready =
      let n = min (suc l) 6 in
      let m = one_message fuel words n w (omega arith) (omega arith) ready in
      let u = waited others (message words n w) in
      let r =
        writes rounds fuel (drop 6 words) (suc l - 6) u (omega arith)
          (omega (arith, length-drop 6 words)) m.1.0.0 in
      (
        r.0,
        (
          one_chunk rounds (suc (suc fuel)) words l w u
                (ap (wait_vdm_for others (suc (suc fuel)) (msec 500)) (sent words n w (omega arith))
                  ∙ m.0)
                m.1.0.1
              ∙ r.1.0,
          r.1.1
              ∙ ap (λ q. q ++ take (suc l - 6) (drop 6 words)) m.1.1
              ∙ append_assoc (received w.tcpc) (take n words) (take (suc l - 6) (drop 6 words))
              ∙ ap (λ q. received w.tcpc ++ q) (first_six (suc l) words),
        ),
      )

  -- FLASH_WRITE for the port, with no VDM waiting, of a whole number of words, at least one, that
  -- the host has passed: where the other tasks deliver each message in time and the clock's wait is
  -- allowed two rounds, it succeeds, and what the device has received has grown by exactly these
  -- words, in their order, however many messages they took.
  pub hc_remote_flash-delivers :
      (params_header fuel words params_size : ℕ) (data' : List ℕ) (w : Port S)
      → 0 < words
      → words ≤ length data'
      → (words * 4 + params_header) % 2 ^ 32 ≤ params_size
      → IsReady w
      → vdm_pending w.vdm_state ≡ false
      → let p : FwUpdate = record {
        port = 0;
        cmd = FwCmd.flash_write;
        size = words * 4;
        data' = data';
        params_size = params_size;
      } in
        (v : Port S) × ((hc_remote_flash others params_header (suc (suc fuel)) p w
            ≡ some (v, EcResult.success))
          × (received v.tcpc ≡ received w.tcpc ++ take words data'))
  unfolding hc_remote_flash run_update
  hc_remote_flash-delivers params_header fuel words params_size data' w some_words enough fits ready
        idle =
      let r = writes words fuel data' words w (omega arith) enough ready in
      let fit : ltb params_size ((words * 4 + params_header) % 2 ^ 32) ≡ false = ground arith in
      let count : words * 4 / 4 ≡ words = omega arith in
      let whole : words * 4 % 4 ≡ 0 = omega arith in
      let more : (words * 4 == 0) ≡ false = ground arith in rw (fit, idle, more, whole, count) r
