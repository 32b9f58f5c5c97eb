-- ===== src/Host/Info.antt =====
-- NOA_ESP32_PD/usb_pd_protocol.cpp: what the host asks about the ports, the attached device and the
-- chip.
use noa_esp32_pd.Base.{ℕ, leb, ◌==◌, Bool, if◌then◌else◌, List, Option, none, some}
use noa_esp32_pd.Host.Result.{EcResult}

-- The fields of `struct pd_protocol` on the attached device.
pub record AttachedDevice : Type 0 where
  pub dev_id : ℕ
  pub dev_rw_hash : List ℕ
  pub current_image : ℕ

-- The answer; the hash is set only with a device.
pub record DevInfo : Type 0 where
  pub dev_id : ℕ
  pub dev_rw_hash : Option (List ℕ)
  pub current_image : ℕ

-- CONFIG_USB_PD_PORT_COUNT is 1.
unfoldable pub hc_pd_ports : ℕ × EcResult
hc_pd_ports = (1, EcResult.success)

unfoldable pub hc_remote_pd_dev_info : ℕ → AttachedDevice → Option DevInfo × EcResult
hc_remote_pd_dev_info port d = if leb 1 port then (none, EcResult.invalid_param) else (
  some (record {
    dev_id = d.dev_id;
    dev_rw_hash = if d.dev_id == 0 then none else some d.dev_rw_hash;
    current_image = d.current_image;
  }),
  EcResult.success,
)

-- `tcpm_get_chip_info` is given with `renew`; it fails, or it gives the information.
unfoldable pub hc_remote_pd_chip_info :
    {A : Type 0} → (Bool → Option A) → ℕ → Bool → Option A × EcResult
hc_remote_pd_chip_info get_chip_info port renew =
    if leb 1 port then (none, EcResult.invalid_param) else elim (get_chip_info renew) [
      | none ↦ (none, EcResult.error)
      | some info ↦ (some info, EcResult.success)
    ]
