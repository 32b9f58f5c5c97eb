-- ===== src/AltMode/Discovery.antt =====
-- NOA_ESP32_PD/usb_pd_policy.cpp: what a DFP learns of its partner, the identity, the svids and
-- the modes. The payload is the array of the message, header first.
use noa_esp32_pd.Base.{
  ℕ, zero, suc, ◌+◌, ◌-◌, ltb, leb, ◌==◌, ◌||◌, not, if◌then◌else◌, List, [], ◌∷◌, ◌++◌, Option,
  none, some, get_or, get_elem?, length, take, drop, set, min,
}
use noa_esp32_pd.Base.Int.{ℤ, pos, negsuc}
use noa_esp32_pd.Message.Objects.{vdo}
use noa_esp32_pd.Message.Modes.{idh_vid, product_pid, svid_svid0, svid_svid1}
use noa_esp32_pd.Message.Types.Vdm as Cmd
use noa_esp32_pd.AltMode.State.{SvidData, Policy, svid_discovery_max, pd_dfp_pe_init, update}

-- `MIN(sizeof(identity), (cnt - 1) * sizeof(uint32_t))` in words; the product is unsigned, so a
-- count of 0 gives the whole array.
unfoldable pub identity_words : ℕ → ℕ
identity_words cnt = if cnt == 0 then 6 else min 6 (cnt - 1)

-- The identity objects after the header, as many as the message has and the array holds. The
-- product type only leads to `pd_power_supply_reset`, whose body is empty.
unfoldable pub dfp_consume_identity : ℕ → List ℕ → Policy → Policy
unfolding pd_dfp_pe_init identity_words
dfp_consume_identity cnt payload p =
    let n = identity_words cnt in
    let q = pd_dfp_pe_init p in record q { identity = take n (drop 1 payload) ++ drop n q.identity }

unfoldable pub pd_get_identity_vid : Policy → ℕ
unfolding idh_vid
pd_get_identity_vid p = idh_vid (get_or p.identity 0 0)

unfoldable pub pd_get_identity_pid : Policy → ℕ
unfolding product_pid
pd_get_identity_pid p = product_pid (get_or p.identity 2 0)

unfoldable pub dfp_discover_svids : List ℕ → List ℕ
unfolding vdo
dfp_discover_svids payload = set payload 0 (vdo Cmd.usb_sid_pd 1 Cmd.cmd_discover_svid)

-- `pe[port].svids[i].svid = v; pe[port].svid_cnt++`
unfoldable pub write_svid : ℕ → ℕ → Policy → Option Policy
write_svid i v p =
    if ltb i (length p.svids)
    then some (record p {
      svids = update p.svids i (λ d. record d { svid = v });
      svid_cnt = p.svid_cnt + 1;
    })
    else none

-- The loop of `dfp_consume_svids` at index `i`, with the words from `*ptr` to the end of the
-- message's array. The bound `svid_cnt + 12` moves with the count.
unfoldable pub consume_words : List ℕ → ℕ → Policy → Option Policy
unfolding write_svid svid_svid0 svid_svid1
consume_words [] i p =
    if not (ltb i (p.svid_cnt + 12)) || i == svid_discovery_max then some p else none
consume_words (v ∷ rest) i p =
    if not (ltb i (p.svid_cnt + 12)) || i == svid_discovery_max
    then some p
    else if svid_svid0 v == 0
    then some p
    else elim (write_svid i (svid_svid0 v) p) [
      | none ↦ none
      | some q ↦ if svid_svid1 v == 0 then some q else elim (write_svid (i + 1) (svid_svid1 v) q) [
        | none ↦ none
        | some r ↦ consume_words rest (i + 2) r
      ]
    ]

unfoldable pub dfp_consume_svids : List ℕ → Policy → Option Policy
unfolding consume_words
dfp_consume_svids payload p = consume_words (drop 1 payload) p.svid_cnt p

-- Whether there is a mode to ask for, with the request in the header. The svid at the index is
-- read before the index is checked.
unfoldable pub dfp_discover_modes : List ℕ → Policy → Option (ℕ × List ℕ)
unfolding vdo
dfp_discover_modes payload p = elim (get_elem? p.svids p.svid_idx) [
  | none ↦ none
  | some d ↦
      if leb p.svid_cnt p.svid_idx
      then some (0, payload)
      else some (1, set payload 0 (vdo d.svid 1 Cmd.cmd_discover_modes))
]

-- `cnt - 1`, as an int
abbrev pub less_one : ℕ → ℤ
less_one zero = negsuc 0
less_one (suc n) = pos n

-- The first `cnt - 1` of `mode_vdo` are copied from the message.
abbrev pub copy_modes : ℕ → List ℕ → SvidData → SvidData
copy_modes cnt payload d = record d {
  mode_cnt = less_one cnt;
  mode_vdo = take (cnt - 1) (drop 1 payload) ++ drop (cnt - 1) d.mode_vdo;
}

-- A message has at most 7 objects, so `mode_vdo` holds them; a count of 0 copies nothing.
unfoldable pub dfp_consume_modes : ℕ → List ℕ → Policy → Option Policy
dfp_consume_modes cnt payload p =
    if ltb p.svid_idx (length p.svids)
    then some (record p {
      svids = update p.svids p.svid_idx (copy_modes cnt payload);
      svid_idx = p.svid_idx + 1;
    })
    else none
