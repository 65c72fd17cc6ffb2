-- ===== src/Interfaces/Configuration.antt =====
-- Choosing and asking for a device's configuration, and resetting it (openusb/src/api.c). The
-- backend's operations and the raw device descriptor are given.
use libopenusb.Prelude.{
  ltb, ◌==◌, if◌then◌else◌, ℤ, ℕ, Bool, true, not, ◌||◌, Option, none, some, List,
}
use libopenusb.Codes.{badarg, not_supported, unknown_device}
use libopenusb.Run.{Run, ok, and_then}
use libopenusb.ParseData.{member}
use libopenusb.Queries.Fixed.{openusb_parse_device_desc}
use libopenusb.Interfaces.{DevHandle, is_zero, lock, unlock}

module _ {W : Type 0} where
  -- A value of the configuration, which is compared with the number of configurations.
  unfoldable pub openusb_set_configuration :
      (DevHandle W → ℕ → Run (ℤ × DevHandle W))
      → ℤ × List ℕ
      → Option (DevHandle W)
      → ℕ
      → Run (ℤ × Option (DevHandle W))
  openusb_set_configuration set_configuration raw found cfg = elim found [
    | none ↦ ok (unknown_device, none)
    | some h ↦ and_then (openusb_parse_device_desc true none raw) (λ d.
        if not (is_zero d.0)
        then ok (d.0, some h)
        else if cfg == 0 || ltb (member 0 17 d.1) cfg
        then ok (badarg, some h)
        else and_then (set_configuration h cfg) (λ r. ok (r.0, some r.1)))
  ]

  -- `given` says that `cfg` is not a null pointer; the value is what the backend stores there.
  unfoldable pub openusb_get_configuration :
      (DevHandle W → Run (ℤ × ℕ))
      → Bool
      → Option (DevHandle W)
      → Run (ℤ × Option (DevHandle W) × Option ℕ)
  unfolding lock unlock
  openusb_get_configuration get_configuration given found =
      if not given then ok (badarg, found, none) else elim found [
        | none ↦ ok (unknown_device, none, none)
        | some h ↦
            and_then (lock h)
              (λ h1. and_then (get_configuration h1) (λ r. ok (r.0, some (unlock h1), some r.1)))
      ]

  unfoldable pub openusb_reset :
      Option (DevHandle W → Run (ℤ × DevHandle W))
      → Option (DevHandle W)
      → Run (ℤ × Option (DevHandle W))
  unfolding lock unlock
  openusb_reset reset found = elim found [
    | none ↦ ok (unknown_device, none)
    | some h ↦ elim reset [
      | none ↦ ok (not_supported, some h)
      | some f ↦ and_then (lock h) (λ h1. and_then (f h1) (λ r. ok (r.0, some (unlock r.1))))
    ]
  ]
