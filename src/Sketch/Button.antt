-- ===== src/Sketch/Button.antt =====
-- NOA_ESP32_PD/NOA_ESP32_PD.ino: the button walks through the capabilities.
use noa_esp32_pd.Base.{ℕ, zero, suc, ◌+◌, ◌≤◌, ltb, true, ◌≡◌, arith, Bool-cases, inl, inr, lt→ltb}
use noa_esp32_pd.Sketch.{Sketch, Inputs, next_index, button_down, on_button}

index_in_range : (current max_index : ℕ) → next_index current max_index ≤ max_index
unfolding next_index
index_in_range current max_index = ground arith

-- The button keeps the index of the object to ask for within the objects that the source offers.
pub on_button-index :
    (i : Inputs) (s : Sketch)
    → s.port.pd_source_cap_current_index ≤ s.port.pd_source_cap_max_index
    → let t = on_button i s in t.port.pd_source_cap_current_index ≤ t.port.pd_source_cap_max_index
unfolding on_button next_index
on_button-index i s h =
    let w = s.port in
    elim (Bool-cases (button_down i s)) [
      | inl e ↦ rw (e) (index_in_range w.pd_source_cap_current_index w.pd_source_cap_max_index)
      | inr e ↦ rw (e) h
    ]

-- `n` presses in a row.
unfoldable pub presses : ℕ → ℕ → ℕ → ℕ
unfolding next_index
presses zero max_index current = current
presses (suc n) max_index current = presses n max_index (next_index current max_index)

presses_up :
    (n max_index current : ℕ) → current + n ≤ max_index → presses n max_index current ≡ current + n
unfolding presses next_index
presses_up zero max_index current h = omega arith
presses_up (suc n) max_index current h =
    let e : ltb current max_index ≡ true = lt→ltb current max_index (omega arith) in
    rw (e) (omega (arith, presses_up n max_index (current + 1) (omega arith)))

-- From the first object, `n` presses reach the object of index `n` when there is one, and one
-- press at the last object leads back to the first.
pub presses-reach :
    (n max_index : ℕ)
    → n ≤ max_index
    → (presses n max_index 0 ≡ n) × (next_index max_index max_index ≡ 0)
unfolding next_index
presses-reach n max_index h = (omega (arith, presses_up n max_index 0 (omega arith)), ground arith)
