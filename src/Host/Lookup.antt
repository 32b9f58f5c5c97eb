-- ===== src/Host/Lookup.antt =====
-- NOA_ESP32_PD/usb_pd_protocol.cpp: a device that the host has entered is recognised by its hash.
use noa_esp32_pd.Base.{
  ℕ, zero, suc, ◌+◌, ◌<◌, ◌==◌, true, false, ◌≡◌, refl, ap, ◌∙◌, List, [], ◌∷◌, Option, none, some,
  set, get_or, length, arith, length-set,
}
use noa_esp32_pd.Host.Result.{EcResult}
use noa_esp32_pd.Host.RwHash.{
  RwHashEntry, RwHashTable, same_words, find_device, next_entry, place_of, rw_hash_entries,
  hc_remote_rw_hash_entry, hash_matches, pd_dev_store_rw_hash,
}

same_words_refl : (xs : List ℕ) → same_words xs xs ≡ true
unfolding same_words
same_words_refl [] = refl
same_words_refl (x ∷ xs) = ground (arith, same_words_refl xs)

-- An entry put where the device has its first entry.
found_matches :
    (es : List RwHashEntry) (k i : ℕ) (p : RwHashEntry)
    → find_device k p.dev_id es ≡ some (k + i)
    → hash_matches p.dev_id p.dev_rw_hash (set es i p) ≡ true
unfolding find_device hash_matches
found_matches [] k i p h = ground arith
found_matches (e ∷ es) k zero p h = ground (arith, same_words_refl p.dev_rw_hash)
found_matches (e ∷ es) k (suc i) p h = ground (arith, found_matches es (k + 1) i p)

-- An entry put anywhere, where the device has none.
absent_matches :
    (es : List RwHashEntry) (k i : ℕ) (p : RwHashEntry)
    → find_device k p.dev_id es ≡ none
    → i < length es
    → hash_matches p.dev_id p.dev_rw_hash (set es i p) ≡ true
unfolding find_device hash_matches
absent_matches [] k i p h lt = ground arith
absent_matches (e ∷ es) k zero p h lt = ground (arith, same_words_refl p.dev_rw_hash)
absent_matches (e ∷ es) k (suc i) p h lt = ground (arith, absent_matches es (k + 1) i p)

-- The other devices, but for the one whose entry was there.
other_matches :
    (es : List RwHashEntry) (i d : ℕ) (p : RwHashEntry) (h : List ℕ)
    → (d == p.dev_id) ≡ false
    → (d == (get_or es i p).dev_id) ≡ false
    → hash_matches d h (set es i p) ≡ hash_matches d h es
unfolding hash_matches
other_matches [] i d p h e g = refl
other_matches (x ∷ es) zero d p h e g = ground arith
other_matches (x ∷ es) (suc i) d p h e g = ground (arith, other_matches es i d p h e g)

-- The table has its entries, and the next index is one of them.
abbrev pub IsTable : RwHashTable → Type 0
IsTable t = (length t.entries ≡ rw_hash_entries) × (t.next_idx < rw_hash_entries)

found_lt : (es : List RwHashEntry) (k d i : ℕ) → find_device k d es ≡ some i → i < k + length es
unfolding find_device
found_lt [] k d i h = ground arith
found_lt (e ∷ es) k d i h = ground (arith, found_lt es (k + 1) d i)

-- What the place of a device gives, whether it is in the table or not.
placed :
    (p : RwHashEntry) (t : RwHashTable) (o : Option ℕ)
    → IsTable t
    → find_device 0 p.dev_id t.entries ≡ o
    → let q = place_of p.dev_id t in
      (q.1 < rw_hash_entries) × (hash_matches p.dev_id p.dev_rw_hash (set t.entries q.0 p) ≡ true)
unfolding place_of next_entry
placed p t (some i) v e =
    rw (place_of, e) (v.1, found_matches t.entries 0 i p (e ∙ ap some (omega arith)))
placed p t none v e =
    rw (place_of, e) (ground arith, absent_matches t.entries 0 t.next_idx p e (ground arith))

-- A host enters a device, whose id is not 0, into a table of 4 entries with its next index in
-- range. That succeeds and leaves such a table; the device is then recognised by the hash that was
-- entered; and every other device is recognised, or not, as before, unless the entry of the device
-- was put over its own.
pub rw_hash_recognised :
    (p : RwHashEntry) (t : RwHashTable) (d : ℕ) (h : List ℕ)
    → (p.dev_id == 0) ≡ false
    → IsTable t
    → (d == p.dev_id) ≡ false
    → (d == (get_or t.entries (place_of p.dev_id t).0 p).dev_id) ≡ false
    → let r = hc_remote_rw_hash_entry p t in
      (r.1 ≡ EcResult.success)
      × IsTable r.0
      × (pd_dev_store_rw_hash p.dev_id p.dev_rw_hash r.0 ≡ true)
      × (pd_dev_store_rw_hash d h r.0 ≡ pd_dev_store_rw_hash d h t)
unfolding hc_remote_rw_hash_entry pd_dev_store_rw_hash
rw_hash_recognised p t d h hz v hd hr =
    let q = place_of p.dev_id t in
    let m = placed p t (find_device 0 p.dev_id t.entries) v refl in
    rw (hz)
      (refl, (length-set t.entries q.0 p ∙ v.0, m.0), m.1, other_matches t.entries q.0 d p h hd hr)
