-- ===== src/AltMode/ModeCount.antt =====
-- NOA_ESP32_PD/usb_pd_policy.cpp: the answers to DISCOVER_MODES, and the index that counts them.
use noa_esp32_pd.Base.{
  ℕ, suc, ◌+◌, ◌≤◌, ◌<◌, ltb, ◌≡◌, List, [], ◌∷◌, Option, none, some, length, arith, Bool-cases,
  inl, inr, ◌∙◌,
}
use noa_esp32_pd.AltMode.State.{Policy, svid_discovery_max, update}
use noa_esp32_pd.AltMode.Discovery.{dfp_consume_modes, copy_modes}
use noa_esp32_pd.AltMode.Svids.{length-update}

-- A row of answers, each with its number of objects.
unfoldable pub answers : List (ℕ × List ℕ) → Policy → Option Policy
answers [] p = some p
answers ((cnt, payload) ∷ rest) p = elim (dfp_consume_modes cnt payload p) [
  | none ↦ none
  | some q ↦ answers rest q
]

-- What a row of `k` answers comes to, for a policy whose index was `i`.
abbrev pub Outcome : ℕ → ℕ → Option Policy → Type 0
Outcome i k none = svid_discovery_max < i + k
Outcome i k (some q) = (i + k ≤ svid_discovery_max) × (q.svid_idx ≡ i + k)

regroup : (i k : ℕ) (o : Option Policy) → Outcome (i + 1) k o → Outcome i (suc k) o
regroup i k none h = omega arith
regroup i k (some q) h = omega arith

-- The index of the svids is not held back by their number: each answer to DISCOVER_MODES moves it
-- one up, and the answer that finds it at the end of the table writes behind the table. A row of
-- answers, whatever they hold, is taken when it is no longer than what the table has left, and
-- then the index has grown by its length; a longer row faults.
pub answers-overrun :
    (row : List (ℕ × List ℕ)) (p : Policy)
    → length p.svids ≡ svid_discovery_max
    → p.svid_idx ≤ svid_discovery_max
    → Outcome p.svid_idx (length row) (answers row p)
unfolding answers dfp_consume_modes
answers-overrun [] p h le = (omega arith, omega arith)
answers-overrun ((cnt, payload) ∷ rest) p h le =
    elim (Bool-cases (ltb p.svid_idx (length p.svids))) [
      | inl e ↦
          let q : Policy = record p {
            svids = update p.svids p.svid_idx (copy_modes cnt payload);
            svid_idx = p.svid_idx + 1;
          } in
          let m : answers ((cnt, payload) ∷ rest) p ≡ answers rest q = ground (arith, e) in
          rw (m) (
            regroup p.svid_idx (length rest) (answers rest q) (
              answers-overrun rest q (length-update p.svids p.svid_idx (copy_modes cnt payload) ∙ h)
                (ground arith)))
      | inr e ↦
          let m : answers ((cnt, payload) ∷ rest) p ≡ none = ground (arith, e) in
          rw (m) (ground arith)
    ]
