-- ===== src/Host/RwHash.antt =====
-- NOA_ESP32_PD/usb_pd_protocol.cpp: the table of devices for which the host has firmware.
use noa_esp32_pd.Base.{
  ℕ, ◌+◌, ◌==◌, ◌&&◌, Bool, true, false, if◌then◌else◌, List, [], ◌∷◌, Option, none, some, set,
}
use noa_esp32_pd.Host.Result.{EcResult}

-- RW_HASH_ENTRIES
abbrev pub rw_hash_entries : ℕ
rw_hash_entries = 4

-- `struct ec_params_usb_pd_rw_hash_entry`, the hash in words.
pub record RwHashEntry : Type 0 where
  pub dev_id : ℕ
  pub dev_rw_hash : List ℕ
  pub current_image : ℕ

-- `rw_hash_table` and `rw_hash_next_idx`
pub record RwHashTable : Type 0 where
  pub entries : List RwHashEntry
  pub next_idx : ℕ

-- `!memcmp(a, b, PD_RW_HASH_SIZE)` on hashes of that size.
unfoldable pub same_words : List ℕ → List ℕ → Bool
same_words [] [] = true
same_words [] (y ∷ ys) = false
same_words (x ∷ xs) [] = false
same_words (x ∷ xs) (y ∷ ys) = x == y && same_words xs ys

-- The index of the first entry of a device, the first of the list being at `i`.
unfoldable pub find_device : ℕ → ℕ → List RwHashEntry → Option ℕ
find_device i dev_id [] = none
find_device i dev_id (e ∷ rest) =
    if dev_id == e.dev_id then some i else find_device (i + 1) dev_id rest

-- The index that follows, at the end of the table the first.
unfoldable pub next_entry : ℕ → ℕ
next_entry i = if i + 1 == rw_hash_entries then 0 else i + 1

-- Where a device's entry goes, with the next index: its own place, or the next one.
unfoldable pub place_of : ℕ → RwHashTable → ℕ × ℕ
unfolding find_device next_entry
place_of dev_id t = elim (find_device 0 dev_id t.entries) [
  | some i ↦ (i, t.next_idx)
  | none ↦ (t.next_idx, next_entry t.next_idx)
]

unfoldable pub hc_remote_rw_hash_entry : RwHashEntry → RwHashTable → RwHashTable × EcResult
unfolding place_of
hc_remote_rw_hash_entry p t =
    if p.dev_id == 0
    then (t, EcResult.invalid_param)
    else let q = place_of p.dev_id t in
      (record { entries = set t.entries q.0 p; next_idx = q.1 }, EcResult.success)

-- The search of `pd_dev_store_rw_hash`.
unfoldable pub hash_matches : ℕ → List ℕ → List RwHashEntry → Bool
unfolding same_words
hash_matches dev_id rw_hash [] = false
hash_matches dev_id rw_hash (e ∷ rest) =
    if dev_id == e.dev_id
    then same_words rw_hash e.dev_rw_hash
    else hash_matches dev_id rw_hash rest

-- Without CONFIG_USB_PD_CHROMEOS, the search is all there is.
unfoldable pub pd_dev_store_rw_hash : ℕ → List ℕ → RwHashTable → Bool
unfolding hash_matches
pd_dev_store_rw_hash dev_id rw_hash t = hash_matches dev_id rw_hash t.entries
