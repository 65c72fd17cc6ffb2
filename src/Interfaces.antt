-- ===== src/Interfaces.antt =====
-- Claiming interfaces and choosing their alternate settings: openusb/src/api.c, over the operations
-- of a backend (`struct usbi_device_ops` of openusb/src/usbi.h) and the open devices' list of
-- openusb/src/usb.c. A device's mutex is a flag, and taking it twice does not come back.
pub mod Linux
pub mod Outcomes
pub mod LinuxSessions
pub mod Configuration
use libopenusb.Prelude.{
  ltb, leb, ◌==◌, if◌then◌else◌, length, get_elem?, set, ℤ, pos, negsuc, is_neg, ℕ, Bool, true,
  false, not, ◌||◌, Option, none, some, List, [], ◌∷◌,
}
use libopenusb.Codes.{badarg, parse_error, unknown_device}
use libopenusb.Run.{and_then, Run, ok, fault, no_fuel}
use libopenusb.Proc.{◌>>=◌, ◌>>◌, pure, lift, return_if, some_or, body}
use libopenusb.Descriptors.{null, live, freed, Config}

-- struct interface_set
pub record IfcSet : Type 0 where
  pub clm : ℤ
  pub altsetting : ℤ

-- struct usbi_dev_handle, with what the functions read of its device; `priv` is the backend's.
pub record DevHandle (W : Type 0) : Type 0 where
  pub handle : ℕ
  pub claimed_ifs : List IfcSet
  pub cur_config_index : ℤ
  pub configs : List Config
  pub locked : Bool
  pub priv : W

-- struct usbi_device_ops, as far as it is called here, and `usbi_fetch_and_parse_descriptors`
pub record Ops (W : Type 0) : Type 0 where
  pub claim_interface : DevHandle W → ℕ → ℕ → Run (ℤ × DevHandle W)
  pub release_interface : DevHandle W → ℕ → Run (ℤ × DevHandle W)
  pub set_altsetting : DevHandle W → ℕ → ℕ → Run (ℤ × DevHandle W)
  pub get_altsetting : DevHandle W → ℕ → Run (ℤ × ℤ)
  pub fetch_and_parse : DevHandle W → Run (ℤ × DevHandle W)

-- USBI_MAXINTERFACES
abbrev pub max_interfaces : ℕ
max_interfaces = 32

-- clm == USBI_IFC_CLAIMED
unfoldable pub is_claimed : ℤ → Bool
is_claimed (pos n) = n == 1
is_claimed (negsuc n) = false

abbrev pub is_zero : ℤ → Bool
is_zero (pos n) = n == 0
is_zero (negsuc n) = false

-- An index of an array, which may be negative.
unfoldable pub at_index {ℓ} : {A : Type ℓ} → List A → ℤ → Run A
at_index xs (pos n) = elim (get_elem? xs n) [ none ↦ fault | some a ↦ ok a ]
at_index xs (negsuc n) = fault

-- pcfg->interfaces[ifc].num_altsettings
unfoldable pub altsettings_at : Config → ℕ → Run ℕ
unfolding at_index
altsettings_at c ifc = elim c.interfaces [
  | live is ↦ and_then (at_index is (pos ifc)) (λ i. ok i.num_altsettings)
  | null ↦ fault
  | freed ↦ fault
]

abbrev pub is_alt : ℤ → ℕ → Bool
is_alt (pos n) alt = n == alt
is_alt (negsuc n) alt = false

module _ {W : Type 0} where
  -- pthread_mutex_lock and pthread_mutex_unlock
  unfoldable pub lock : DevHandle W → Run (DevHandle W)
  lock h = if h.locked then no_fuel else ok (record h { locked = true })

  unfoldable pub unlock : DevHandle W → DevHandle W
  unlock h = record h { locked = false }

  -- hdev->claimed_ifs[ifc] = s
  unfoldable pub set_claim : DevHandle W → ℕ → IfcSet → Run (DevHandle W)
  set_claim h ifc s =
      if ltb ifc (length h.claimed_ifs)
      then ok (record h { claimed_ifs = set h.claimed_ifs ifc s })
      else fault

  -- The first open device of that handle.
  unfoldable pub usbi_find_dev_handle : Bool → List (DevHandle W) → ℕ → Option (DevHandle W)
  usbi_find_dev_handle inited [] dev = none
  usbi_find_dev_handle inited (h ∷ hs) dev =
      let rest = usbi_find_dev_handle inited hs dev in
      if not inited then none else if h.handle == dev then some h else rest

  -- Is it no interface of the configuration in use? The configuration is read for a number below 32.
  unfoldable pub not_valid : DevHandle W → ℕ → Run Bool
  unfolding at_index
  not_valid h ifc =
      if leb max_interfaces ifc
      then ok true
      else and_then (at_index h.configs h.cur_config_index) (λ c. ok (leb c.num_interfaces ifc))

  -- From the refreshing of the descriptors on.
  unfoldable pub openusb_claim_interface :
      Ops W → Option (DevHandle W) → ℕ → ℕ → Run (ℤ × Option (DevHandle W))
  unfolding lock unlock not_valid set_claim
  openusb_claim_interface ops found ifc flags =
      body
        (do
          return_if (ltb max_interfaces ifc) (badarg, found)
          hdev ← some_or found (unknown_device, none)
          fetched ← lift (ops.fetch_and_parse hdev)
          return_if (not (is_zero fetched.0)) (badarg, some fetched.1)
          h1 ← lift (lock fetched.1)
          invalid ← lift (not_valid h1 ifc)
          return_if invalid (badarg, some (unlock h1))
          r ← lift (ops.claim_interface (unlock h1) ifc flags)
          h2 ← lift (lock r.1)
          h3 ← lift (
              if is_zero r.0
              then set_claim h2 ifc (record { clm = pos 1; altsetting = pos 0 })
              else ok h2)
          pure (r.0, some (unlock h3)))
        ok

  -- Outside 0..32 it is an error; 32 is one past the array.
  unfoldable pub openusb_is_interface_claimed :
      Option (DevHandle W) → ℕ → Run (ℤ × Option (DevHandle W))
  unfolding lock unlock at_index is_claimed
  openusb_is_interface_claimed found ifc =
      body
        (do
          return_if (ltb max_interfaces ifc) (badarg, found)
          hdev ← some_or found (badarg, none)
          h1 ← lift (lock hdev)
          s ← lift (at_index h1.claimed_ifs (pos ifc))
          pure ((if is_claimed s.clm then pos 1 else pos 0), some (unlock h1)))
        ok

  unfoldable pub openusb_release_interface :
      Ops W → Option (DevHandle W) → ℕ → Run (ℤ × Option (DevHandle W))
  unfolding lock unlock
  openusb_release_interface ops found ifc =
      body
        (do
          return_if (ltb max_interfaces ifc) (badarg, found)
          hdev ← some_or found (unknown_device, none)
          claimed ← lift (openusb_is_interface_claimed (some hdev) ifc)
          return_if (not (is_claimed claimed.0)) (badarg, claimed.1)
          h0 ← some_or claimed.1 (badarg, none)
          h1 ← lift (lock h0)
          r ← lift (ops.release_interface h1 ifc)
          pure (r.0, some (unlock r.1)))
        ok

  -- Each test is made only if those before it fail; an interface `num_interfaces` passes the first.
  unfoldable pub altsetting_refused : DevHandle W → Config → ℕ → ℕ → Run Bool
  unfolding at_index is_claimed altsettings_at
  altsetting_refused h c ifc alt =
      if ltb c.num_interfaces ifc || ltb max_interfaces ifc
      then ok true
      else and_then (at_index h.claimed_ifs (pos ifc)) (λ s.
        if not (is_claimed s.clm)
        then ok true
        else and_then (altsettings_at c ifc) (λ n. ok (leb n alt)))

  -- With no configuration chosen it returns without `pthread_mutex_unlock`.
  unfoldable pub openusb_set_altsetting :
      Ops W → Option (DevHandle W) → ℕ → ℕ → Run (ℤ × Option (DevHandle W))
  unfolding lock unlock at_index altsetting_refused
  openusb_set_altsetting ops found ifc alt =
      body
        (do
          hdev ← some_or found (unknown_device, none)
          return_if (ltb max_interfaces ifc) (badarg, found)
          h0 ← lift (lock hdev)
          fetched ← lift (ops.fetch_and_parse (unlock h0))
          return_if (not (is_zero fetched.0)) (parse_error, some fetched.1)
          h1 ← lift (lock fetched.1)
          return_if (is_neg h1.cur_config_index) (parse_error, some h1)
          c ← lift (at_index h1.configs h1.cur_config_index)
          refused ← lift (altsetting_refused h1 c ifc alt)
          return_if refused (badarg, some (unlock h1))
          s ← lift (at_index h1.claimed_ifs (pos ifc))
          return_if (is_alt s.altsetting alt) (pos 0, some (unlock h1))
          r ← lift (ops.set_altsetting h1 ifc alt)
          pure (r.0, some (unlock r.1)))
        ok

  -- The result, the device, and what is stored at `alt`, which is a pointer that is not null.
  unfoldable pub openusb_get_altsetting :
      Ops W → Option (DevHandle W) → ℕ → Run (ℤ × Option (DevHandle W) × Option ℤ)
  unfolding lock unlock at_index is_claimed
  openusb_get_altsetting ops found ifc =
      body
        (do
          return_if (ltb max_interfaces ifc) (badarg, found, none)
          hdev ← some_or found (unknown_device, none, none)
          h1 ← lift (lock hdev)
          s ← lift (at_index h1.claimed_ifs (pos ifc))
          return_if (not (is_claimed s.clm)) (badarg, some (unlock h1), none)
          r ← lift (ops.get_altsetting (unlock h1) ifc)
          pure (r.0, some (unlock h1), some r.1))
        ok
