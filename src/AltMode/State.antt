-- ===== src/AltMode/State.antt =====
-- NOA_ESP32_PD/usb_pd.h and usb_pd_policy.cpp: `struct pd_policy`, the state of alternate modes,
-- and what the board gives them. A pointer into `supported_modes` or `svids` is the index there.
use noa_esp32_pd.Base.{ℕ, zero, suc, ◌≡◌, refl, List, [], ◌∷◌, Option, none, some}
use noa_esp32_pd.Base.Int.{ℤ, pos}

-- SVID_DISCOVERY_MAX, PD_AMODE_COUNT, PDO_MODES
abbrev pub svid_discovery_max : ℕ
svid_discovery_max = 16

abbrev pub pd_amode_count : ℕ
pd_amode_count = 2

abbrev pub pdo_modes : ℕ
pdo_modes = 6

-- `struct svdm_svid_data`
pub record SvidData : Type 0 where
  pub svid : ℕ
  pub mode_cnt : ℤ
  pub mode_vdo : List ℕ

-- `struct svdm_amode_data`
pub record AmodeData : Type 0 where
  pub fx : Option ℕ
  pub opos : ℕ
  pub svid_data : Option ℕ  -- `data`

-- `struct pd_policy`
pub record Policy : Type 0 where
  pub svid_idx : ℕ
  pub svid_cnt : ℕ
  pub identity : List ℕ
  pub svids : List SvidData
  pub amodes : List AmodeData
  pub amode_idx : ℕ

-- A function of the board on a message: the message that it leaves, and its result.
abbrev pub MessageFunc : Type 0 → Type 0
MessageFunc B = List ℕ → B → B × (List ℕ × ℤ)

-- `struct svdm_amode_fx`, over the state `B` of the board. `post_config` and `attention` may be
-- null.
pub record AmodeFx (B : Type 0) : Type 0 where
  pub svid : ℕ
  pub enter : ℕ → B → B × ℤ
  pub status : MessageFunc B
  pub config : MessageFunc B
  pub post_config : Option (B → B)
  pub attention : Option (MessageFunc B)
  pub exit : B → B

-- `struct svdm_response`; `amode` is a pointer to the last two.
pub record SvdmResponse (B : Type 0) : Type 0 where
  pub identity : Option (MessageFunc B)
  pub svids : Option (MessageFunc B)
  pub modes : Option (MessageFunc B)
  pub enter_mode : Option (MessageFunc B)
  pub exit_mode : Option (MessageFunc B)
  pub amode : Option (Option (MessageFunc B) × Option (MessageFunc B))

-- What the board defines, and what a read of an svid through a null pointer gives: nothing where
-- that faults.
pub record Board (B : Type 0) : Type 0 where
  pub supported_modes : List (AmodeFx B)
  pub svdm_rsp : SvdmResponse B
  pub null_svid : Option ℕ

pub record Dfp (B : Type 0) : Type 0 where
  pub pe : Policy
  pub board : B

-- `none` is a fault: a read or a write outside an array, or through a null pointer.
abbrev pub M : Type 0 → Type 0 → Type 0
M B A = Dfp B → Option (A × Dfp B)

abbrev pub pure : {B A : Type 0} → A → M B A
pure a s = some (a, s)

abbrev pub fault : {B A : Type 0} → M B A
fault s = none

infixl 5 ◌>>=◌ ◌>>◌
abbrev pub ◌>>=◌ : {B A C : Type 0} → M B A → (A → M B C) → M B C
◌>>=◌ m f s = elim (m s) [ none ↦ none | some (a, t) ↦ f a t ]

abbrev pub ◌>>◌ : {B C : Type 0} → M B (Unit {0}) → M B C → M B C
m >> k = m >>= λ _. k

-- What a first step gives is what the second starts from.
pub bind-some :
    {B A C : Type 0} (m : M B A) (f : A → M B C) (s t : Dfp B) (a : A)
    → m s ≡ some (a, t)
    → (m >>= f) s ≡ f a t
bind-some m f s t a h = rw (h, ◌>>=◌) refl

abbrev pub get_pe : {B : Type 0} → M B Policy
get_pe s = some (s.pe, s)

abbrev pub put_pe : {B : Type 0} → Policy → M B (Unit {0})
put_pe p s = some (tt, record s { pe = p })

-- A value that may be a fault.
abbrev pub deref : {B A : Type 0} → Option A → M B A
deref none s = none
deref (some a) s = some (a, s)

-- A function of the board.
abbrev pub on_board : {B A : Type 0} → (B → B × A) → M B A
on_board f s = let r = f s.board in some (r.1, record s { board = r.0 })

abbrev pub zero_svid : SvidData
zero_svid = record { svid = 0; mode_cnt = pos 0; mode_vdo = 0 ∷ 0 ∷ 0 ∷ 0 ∷ 0 ∷ 0 ∷ [] }

abbrev pub zero_amode : AmodeData
zero_amode = record { fx = none; opos = 0; svid_data = none }

abbrev pub four_svids : List SvidData → List SvidData
four_svids rest = zero_svid ∷ zero_svid ∷ zero_svid ∷ zero_svid ∷ rest

-- The policy after `memset(&pe[port], 0, sizeof(struct pd_policy))`.
abbrev pub zero_policy : Policy
zero_policy = record {
  svid_idx = 0;
  svid_cnt = 0;
  identity = 0 ∷ 0 ∷ 0 ∷ 0 ∷ 0 ∷ 0 ∷ [];
  svids = four_svids (four_svids (four_svids (four_svids [])));
  amodes = zero_amode ∷ zero_amode ∷ [];
  amode_idx = 0;
}

unfoldable pub pd_dfp_pe_init : Policy → Policy
pd_dfp_pe_init p = zero_policy

-- The element of a list changed at an index; out of range, nothing.
abbrev pub update {ℓ} : {A : Type ℓ} → List A → ℕ → (A → A) → List A
update [] i f = []
update (x ∷ xs) zero f = f x ∷ xs
update (x ∷ xs) (suc i) f = x ∷ update xs i f
