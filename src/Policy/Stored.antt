-- ===== src/Policy/Stored.antt =====
-- NOA_ESP32_PD/usb_pd_policy.cpp and usb_pd_protocol.cpp: what the copy of a message's words into a
-- table leaves there.
use noa_esp32_pd.Base.{
  ℕ, zero, suc, ◌+◌, ◌≤◌, ◌<◌, ◌≡◌, refl, ◌∙◌, List, [], ◌∷◌, length, get_or, set, take, drop,
  drop-cons, length-set, get_or-set_self, get_or-set_ne, arith,
}
use noa_esp32_pd.Policy.Request.{store_caps}

pub length-store_caps :
    (n i : ℕ) (words table : List ℕ) → length (store_caps n i words table) ≡ length table
unfolding store_caps
length-store_caps zero i words table = refl
length-store_caps (suc n) i [] table =
    length-store_caps n (i + 1) [] (set table i 0) ∙ length-set table i 0
length-store_caps (suc n) i (p ∷ words) table =
    length-store_caps n (i + 1) words (set table i p) ∙ length-set table i p

-- The places before the first one written.
pub store_caps-before :
    (n i j : ℕ) (words table : List ℕ)
    → j < i
    → get_or (store_caps n i words table) j 0 ≡ get_or table j 0
unfolding store_caps
store_caps-before zero i j words table h = refl
store_caps-before (suc n) i j [] table h =
    store_caps-before n (i + 1) j [] (set table i 0) (omega arith)
    ∙ get_or-set_ne table i j 0 0 (λ e. absurd (omega arith))
store_caps-before (suc n) i j (p ∷ words) table h =
    store_caps-before n (i + 1) j words (set table i p) (omega arith)
    ∙ get_or-set_ne table i j p 0 (λ e. absurd (omega arith))

-- The words that fit are found where they were written, in their order.
pub store_caps-found :
    (n i : ℕ) (words table : List ℕ)
    → i + n ≤ length table
    → n ≤ length words
    → take n (drop i (store_caps n i words table)) ≡ take n words
unfolding store_caps
store_caps-found zero i words table h g = refl
store_caps-found (suc n) i [] table h g = absurd (omega arith)
store_caps-found (suc n) i (p ∷ words) table h g =
    let t = store_caps n (i + 1) words (set table i p) in
    let lt : i < length t =
      omega (arith, length-store_caps n (i + 1) words (set table i p), length-set table i p) in
    let here =
      store_caps-before n (i + 1) i words (set table i p) (omega arith)
      ∙ get_or-set_self table i p 0 (omega arith) in
    let rest =
      store_caps-found n (i + 1) words (set table i p) (omega (arith, length-set table i p))
        (omega arith) in
    let next : suc i ≡ i + 1 = omega arith in rw (drop-cons t i 0 lt, here, next, rest) refl
