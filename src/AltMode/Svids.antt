-- ===== src/AltMode/Svids.antt =====
-- NOA_ESP32_PD/usb_pd_policy.cpp: what `dfp_consume_svids` stores, and where it leaves the message.
use noa_esp32_pd.Base.{
  ℕ, zero, suc, ◌+◌, ◌*◌, ◌≤◌, ◌<◌, ◌==◌, if◌then◌else◌, ◌≡◌, refl, ap, List, [], ◌∷◌, none, some,
  length, drop, arith,
}
use noa_esp32_pd.Message.Modes.{svid_svid0, svid_svid1}
use noa_esp32_pd.AltMode.State.{SvidData, Policy, svid_discovery_max, update}
use noa_esp32_pd.AltMode.Discovery.{write_svid, consume_words, dfp_consume_svids}

-- The svids of a message in order, two to a word, up to the first that is 0.
unfoldable pub announced : List ℕ → List ℕ
announced [] = []
announced (v ∷ rest) =
    if svid_svid0 v == 0
    then []
    else svid_svid0 v ∷ (if svid_svid1 v == 0 then [] else svid_svid1 v ∷ announced rest)

-- A list of svids stored from an index on.
unfoldable pub store_svids : ℕ → List ℕ → List SvidData → List SvidData
store_svids i [] svids = svids
store_svids i (s ∷ rest) svids =
    store_svids (i + 1) rest (update svids i (λ d. record d { svid = s }))

pub length-update {ℓ} :
    {A : Type ℓ} (xs : List A) (i : ℕ) (f : A → A) → length (update xs i f) ≡ length xs
length-update [] i f = refl
length-update (x ∷ xs) zero f = refl
length-update (x ∷ xs) (suc i) f = ap suc (length-update xs i f)

abbrev stored : List ℕ → Policy → Policy
stored new p = record p {
  svid_cnt = p.svid_cnt + length new;
  svids = store_svids p.svid_cnt new p.svids;
}

pub write_svid_lem :
    (i v : ℕ) (p : Policy)
    → i < length p.svids
    → write_svid i v p
      ≡ some (record p {
        svids = update p.svids i (λ d. record d { svid = v });
        svid_cnt = p.svid_cnt + 1;
      })
unfolding write_svid
write_svid_lem i v p h = ground arith

-- The policy after two svids were written.
abbrev pub two_more : ℕ → ℕ → Policy → Policy
two_more a b p = record p {
  svids =
      update (update p.svids p.svid_cnt (λ d. record d { svid = a })) (p.svid_cnt + 1)
        (λ d. record d { svid = b });
  svid_cnt = p.svid_cnt + 1 + 1;
}

abbrev pub one_more : ℕ → Policy → Policy
one_more a p = record p {
  svids = update p.svids p.svid_cnt (λ d. record d { svid = a });
  svid_cnt = p.svid_cnt + 1;
}

-- The loop, started at the count, stores what is announced when it ends before the words do.
consume_words-stores :
    (ws : List ℕ) (i : ℕ) (p : Policy)
    → i ≡ p.svid_cnt
    → length p.svids ≡ svid_discovery_max
    → p.svid_cnt + length (announced ws) < svid_discovery_max
    → length (announced ws) < 2 * length ws
    → consume_words ws i p ≡ some (stored (announced ws) p)
unfolding consume_words announced store_svids
consume_words-stores [] i p e h room short = absurd (omega arith)
consume_words-stores (v ∷ rest) i p e h room short =
    let a = svid_svid0 v in
    let b = svid_svid1 v in
    ground (
      arith,
      write_svid_lem i a p,
      write_svid_lem (i + 1) b (one_more a p),
      length-update p.svids p.svid_cnt (λ (d : SvidData). record d { svid = a }),
      length-update (update p.svids p.svid_cnt (λ (d : SvidData). record d { svid = a }))
          (p.svid_cnt + 1) (λ (d : SvidData). record d { svid = b }),
      consume_words-stores rest (i + 2) (two_more a b p),
    )

-- An answer to DISCOVER_SVID with room in the table, and with a 0 to mark the end: the svids before
-- it are stored in their order behind those known, the count grows by their number, and nothing
-- else of the policy changes.
pub consume_svids-stores :
    (payload : List ℕ) (p : Policy)
    → let new = announced (drop 1 payload) in
      length p.svids ≡ svid_discovery_max
      → p.svid_cnt + length new < svid_discovery_max
      → length new < 2 * length (drop 1 payload)
      → dfp_consume_svids payload p
        ≡ some (record p {
          svid_cnt = p.svid_cnt + length new;
          svids = store_svids p.svid_cnt new p.svids;
        })
unfolding dfp_consume_svids
consume_svids-stores payload p h room short =
    consume_words-stores (drop 1 payload) p.svid_cnt p refl h room short

length-announced : (ws : List ℕ) → length (announced ws) ≤ 2 * length ws
unfolding announced
length-announced [] = omega arith
length-announced (v ∷ rest) = ground (arith, length-announced rest)

consume_words-overruns :
    (ws : List ℕ) (i : ℕ) (p : Policy)
    → i ≡ p.svid_cnt
    → length p.svids ≡ svid_discovery_max
    → p.svid_cnt + 2 * length ws < svid_discovery_max
    → length (announced ws) ≡ 2 * length ws
    → consume_words ws i p ≡ none
unfolding consume_words announced
consume_words-overruns [] i p e h room full = ground arith
consume_words-overruns (v ∷ rest) i p e h room full =
    let a = svid_svid0 v in
    let b = svid_svid1 v in
    ground (
      arith,
      write_svid_lem i a p,
      write_svid_lem (i + 1) b (one_more a p),
      length-update p.svids p.svid_cnt (λ (d : SvidData). record d { svid = a }),
      length-update (update p.svids p.svid_cnt (λ (d : SvidData). record d { svid = a }))
          (p.svid_cnt + 1) (λ (d : SvidData). record d { svid = b }),
      length-announced rest,
      consume_words-overruns rest (i + 2) (two_more a b p),
    )

-- An answer that has no 0, with fewer svids than the table has room for: the loop reads on behind
-- the end of the message.
pub consume_svids-overruns :
    (payload : List ℕ) (p : Policy)
    → length p.svids ≡ svid_discovery_max
    → p.svid_cnt + 2 * length (drop 1 payload) < svid_discovery_max
    → length (announced (drop 1 payload)) ≡ 2 * length (drop 1 payload)
    → dfp_consume_svids payload p ≡ none
unfolding dfp_consume_svids
consume_svids-overruns payload p h room full =
    consume_words-overruns (drop 1 payload) p.svid_cnt p refl h room full
