-- ===== src/Protocol/SameState.antt =====
-- NOA_ESP32_PD/usb_pd_protocol.cpp: the comparison of states decides their equality.
use noa_esp32_pd.Base.{ℕ, true, false, ◌≡◌, ◌≢◌, sym, ap, ◌∙◌, [], ◌∷◌, get_or, arith}
use noa_esp32_pd.Protocol.Port.{PdState}
use noa_esp32_pd.Protocol.Core.{same_state, index}

-- A state from its place.
state_at : ℕ → PdState
state_at i =
    get_or
      (PdState.disabled ∷ PdState.suspended ∷ PdState.snk_disconnected
        ∷ PdState.snk_disconnected_debounce ∷ PdState.snk_hard_reset_recover ∷ PdState.snk_discovery
        ∷ PdState.snk_requested ∷ PdState.snk_transition ∷ PdState.snk_ready ∷ PdState.snk_swap_init
        ∷ PdState.snk_swap_snk_disable ∷ PdState.snk_swap_src_disable ∷ PdState.snk_swap_standby
        ∷ PdState.snk_swap_complete ∷ PdState.src_disconnected ∷ PdState.src_disconnected_debounce
        ∷ PdState.src_hard_reset_recover ∷ PdState.src_startup ∷ PdState.src_discovery
        ∷ PdState.src_negociate ∷ PdState.src_accepted ∷ PdState.src_powered
        ∷ PdState.src_transition ∷ PdState.src_ready ∷ PdState.src_get_sink_cap ∷ PdState.dr_swap
        ∷ PdState.src_swap_init ∷ PdState.src_swap_snk_disable ∷ PdState.src_swap_src_disable
        ∷ PdState.src_swap_standby ∷ PdState.soft_reset ∷ PdState.hard_reset_send
        ∷ PdState.hard_reset_execute ∷ [])
      i PdState.disabled

index-back : (s : PdState) → state_at (index s) ≡ s
unfolding state_at index
index-back s = ground arith

pub same_state-eq : (a b : PdState) → same_state a b ≡ true → a ≡ b
unfolding same_state
same_state-eq a b h =
    let e : index a ≡ index b = ground arith in sym (index-back a) ∙ ap state_at e ∙ index-back b

pub same_state-ne : (a b : PdState) → same_state a b ≡ false → a ≢ b
unfolding same_state
same_state-ne a b h e = ground (arith, ap index e)
