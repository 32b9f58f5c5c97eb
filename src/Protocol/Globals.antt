-- ===== src/Protocol/Globals.antt =====
-- NOA_ESP32_PD/usb_pd_protocol.cpp: what the other parts of a system would set: `pd_update_try_source`
-- (CONFIG_USB_PD_TRY_SRC), `pd_init_tasks` (CONFIG_COMMON_RUNTIME, without
-- a chipset task), and the saved state of the port (CONFIG_BBRAM).
use noa_esp32_pd.Base.{
  ℕ, leb, ◌==◌, ◌&&◌, not, Bool, true, false, if◌then◌else◌, Option, none, some,
}
use noa_esp32_pd.Protocol.Flags
use noa_esp32_pd.Protocol.Port.{DrpState, Port}
use noa_esp32_pd.Protocol.Core.{clear_flag}
use noa_esp32_pd.Protocol.Reset.{is_toggle_on}
use noa_esp32_pd.Protocol.Commands.{pd_set_dual_role}

-- The charge of the battery and CONFIG_USB_PD_TRY_SRC_MIN_BATT_SOC are the board's.
unfoldable pub pd_update_try_source : {S : Type 0} → ℕ → ℕ → Port S → Port S
unfolding clear_flag
pd_update_try_source min_soc batt_soc w =
    clear_flag Flags.try_src
      (record w { pd_try_src_enable = is_toggle_on w.drp_state && leb min_soc batt_soc })

-- `pd_set_dual_role` under CONFIG_USB_PD_TRY_SRC
unfoldable pub set_role_try_source : {S : Type 0} → ℕ → ℕ → DrpState → Port S → Port S
unfolding pd_update_try_source pd_set_dual_role
set_role_try_source min_soc batt_soc state w =
    pd_update_try_source min_soc batt_soc (pd_set_dual_role state w)

-- `initialized` and `pd_comm_enabled`
pub record Globals : Type 0 where
  pub initialized : Bool
  pub comm_enabled : Bool

unfoldable pub pd_init_tasks : Globals → Globals
pd_init_tasks g = if g.initialized then g else record { initialized = true; comm_enabled = true }

-- What `system_get_bbram` reads: nothing when it fails.
unfoldable pub pd_get_saved_active : Option ℕ → Bool
pd_get_saved_active none = false
pd_get_saved_active (some val) = not (val == 0)
