-- ===== src/Interfaces/Linux.antt =====
-- The interface operations of the Linux backend, openusb/src/linux.c, over the kernel's ioctls.
use libopenusb.Prelude.{
  ◌==◌, if◌then◌else◌, ℤ, pos, negsuc, is_neg, ℕ, Bool, true, false, not, ◌%◌, ◌-◌,
}
use libopenusb.Codes.{success, badarg}
use libopenusb.Run.{Run, ok, and_then}
use libopenusb.Interfaces.{DevHandle, Ops, is_claimed, is_zero, at_index, set_claim}

-- The ioctls of a device file: their result, and the kernel's state after. `failure` is the code
-- that `translate_errno(errno)` gives after a call that failed.
pub record Kernel (K : Type 0) : Type 0 where
  pub claim_intf : K → ℕ → ℤ × K
  pub claim_intf_byte : K → ℕ → ℤ × K
  pub release_intf : K → ℕ → ℤ × K
  pub set_intf : K → ℕ → ℕ → ℤ × K
  pub connect_driver : K → ℕ → ℤ × K
  pub disconnect_driver : K → ℕ → ℤ × K
  pub failure : K → ℤ

-- struct usbi_dev_hdl_private, as far as it is used here
pub record LinuxPriv (K : Type 0) : Type 0 where
  pub kernel : K
  pub reattachdrv : Bool

module _ {K : Type 0} (os : Kernel K) where
  abbrev pub LinuxHandle : Type 0
  LinuxHandle = DevHandle (LinuxPriv K)

  -- The handle after an ioctl.
  abbrev pub after : LinuxHandle → K → LinuxHandle
  after h k = record h { priv = record (h.priv) { kernel = k } }

  abbrev pub with_reattach : LinuxHandle → Bool → LinuxHandle
  with_reattach h b = record h { priv = record (h.priv) { reattachdrv = b } }

  -- if (ret) return translate_errno(errno); return OPENUSB_SUCCESS;
  unfoldable pub driver_result : LinuxHandle → ℤ × K → ℤ × LinuxHandle
  driver_result h (r, k) = (if is_zero r then success else os.failure k, after h k)

  unfoldable pub linux_attach_kernel_driver : LinuxHandle → ℕ → ℤ × LinuxHandle
  unfolding driver_result
  linux_attach_kernel_driver h ifc = driver_result h (os.connect_driver h.priv.kernel ifc)

  unfoldable pub linux_detach_kernel_driver : LinuxHandle → ℕ → ℤ × LinuxHandle
  unfolding driver_result
  linux_detach_kernel_driver h ifc = driver_result h (os.disconnect_driver h.priv.kernel ifc)

  -- ret > 0
  abbrev pub positive : ℤ → Bool
  positive (pos n) = not (n == 0)
  positive (negsuc n) = false

  -- The driver is detached: claim again, this time by the address of a byte.
  unfoldable pub claim_again : LinuxHandle → ℕ → ℤ × LinuxHandle
  unfolding linux_attach_kernel_driver
  claim_again h ifc =
      let r = os.claim_intf_byte h.priv.kernel ifc in
      let h' = after (with_reattach h true) r.1 in
      if is_neg r.0 then linux_attach_kernel_driver (with_reattach h' false) ifc else (r.0, h')

  -- `flags` is compared once and then assigned a value that is not 0: the way behind a failed claim
  -- is always this one.
  unfoldable pub claim_failed : LinuxHandle → ℕ → ℤ × LinuxHandle
  unfolding linux_detach_kernel_driver claim_again
  claim_failed h ifc =
      let d = linux_detach_kernel_driver h ifc in if positive d.0 then claim_again d.1 ifc else d

  unfoldable pub linux_claim_interface : LinuxHandle → ℕ → ℕ → Run (ℤ × LinuxHandle)
  unfolding at_index is_claimed set_claim claim_failed
  linux_claim_interface h ifc flags = and_then (at_index h.claimed_ifs (pos ifc)) (λ s.
      if is_claimed s.clm
      then ok (success, h)
      else let r = os.claim_intf h.priv.kernel ifc in
        if is_neg r.0
        then ok (claim_failed (after h r.1) ifc)
        else and_then (set_claim (after h r.1) ifc (record { clm = pos 1; altsetting = pos 0 }))
            (λ h'. ok (r.0, h')))

  unfoldable pub linux_release_interface : LinuxHandle → ℕ → Run (ℤ × LinuxHandle)
  unfolding set_claim linux_attach_kernel_driver
  linux_release_interface h ifc =
      let r = os.release_intf h.priv.kernel ifc in
      if is_neg r.0
      then ok (os.failure r.1, after h r.1)
      else and_then (set_claim (after h r.1) ifc (record { clm = negsuc 0; altsetting = negsuc 0 }))
          (λ h'.
            if h'.priv.reattachdrv
            then (let a = linux_attach_kernel_driver h' ifc in
                if is_neg a.0 then ok a else ok (success, a.1))
            else ok (success, h'))

  unfoldable pub linux_set_altsetting : LinuxHandle → ℕ → ℕ → Run (ℤ × LinuxHandle)
  unfolding at_index is_claimed set_claim
  linux_set_altsetting h ifc alt = and_then (at_index h.claimed_ifs (pos ifc)) (λ s.
      if not (is_claimed s.clm)
      then ok (badarg, h)
      else let r = os.set_intf h.priv.kernel ifc alt in
        if is_neg r.0
        then ok (os.failure r.1, after h r.1)
        else and_then (set_claim (after h r.1) ifc (record s { altsetting = pos alt }))
            (λ h'. ok (success, h')))

  -- An int as a uint8_t
  unfoldable to_uint8 : ℤ → ℤ
  to_uint8 (pos n) = pos (n % 256)
  to_uint8 (negsuc n) = pos (255 - n % 256)

  unfoldable pub linux_get_altsetting : LinuxHandle → ℕ → Run (ℤ × ℤ)
  unfolding at_index to_uint8
  linux_get_altsetting h ifc =
      and_then (at_index h.claimed_ifs (pos ifc)) (λ s. ok (success, to_uint8 s.altsetting))

  -- The table of the backend; what refreshes the descriptors is given.
  unfoldable pub linux_ops : (LinuxHandle → Run (ℤ × LinuxHandle)) → Ops (LinuxPriv K)
  unfolding linux_claim_interface linux_release_interface linux_set_altsetting linux_get_altsetting
  linux_ops fetch = record {
    claim_interface = linux_claim_interface;
    release_interface = linux_release_interface;
    set_altsetting = linux_set_altsetting;
    get_altsetting = linux_get_altsetting;
    fetch_and_parse = fetch;
  }
