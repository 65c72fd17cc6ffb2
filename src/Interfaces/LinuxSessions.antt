-- ===== src/Interfaces/LinuxSessions.antt =====
-- Sequences of calls over the Linux backend, when the kernel grants them and when it does not.
use libopenusb.Prelude.{
  ap, ◌∙◌, set-set, length-set, get_elem?-set, refl, ltb, length, get_elem?, ℤ, pos, negsuc, ℕ, ◌≡◌,
  refl, true, false, some, arith,
}
use libopenusb.Run.{Run, ok}
use libopenusb.Interfaces.{
  IfcSet, DevHandle, max_interfaces, is_claimed, set_claim, openusb_claim_interface,
  openusb_is_interface_claimed, openusb_release_interface,
}
use libopenusb.Interfaces.Linux.{
  driver_result, claim_failed, linux_detach_kernel_driver, Kernel, LinuxPriv, after,
  linux_claim_interface, linux_release_interface, linux_ops,
}
use libopenusb.Interfaces.Outcomes.{
  claim_granted, release_passes, query, idle, held, with_claim, Known, at_index-some,
}

abbrev pub claimed_anew : IfcSet
claimed_anew = record { clm = pos 1; altsetting = pos 0 }

abbrev pub released : IfcSet
released = record { clm = negsuc 0; altsetting = negsuc 0 }

module _ {K : Type 0} (os : Kernel K)
    (fetch : DevHandle (LinuxPriv K) → Run (ℤ × DevHandle (LinuxPriv K)))
    (h : DevHandle (LinuxPriv K)) (ifc flags : ℕ) (s : IfcSet) (known : Known h ifc)
    (fetched : fetch (idle h) ≡ ok (pos 0, idle h)) (size : length h.claimed_ifs ≡ max_interfaces)
    (slot : get_elem? h.claimed_ifs ifc ≡ some s) (free : is_claimed s.clm ≡ false) where
  inside : ltb ifc (length h.claimed_ifs) ≡ true
  inside = ground (arith, known.range)

  linux_claims :
      (k : K)
      → os.claim_intf h.priv.kernel ifc ≡ (pos 0, k)
      → linux_claim_interface os (idle h) ifc flags
        ≡ ok (pos 0, idle (with_claim (after os h k) ifc claimed_anew))
  unfolding linux_claim_interface set_claim
  linux_claims k e = rw (at_index-some h.claimed_ifs ifc s slot, free, e, inside) refl

  linux_releases :
      (h' : DevHandle (LinuxPriv K)) (r : ℕ) (k : K)
      → length h'.claimed_ifs ≡ max_interfaces
      → h'.priv.reattachdrv ≡ false
      → os.release_intf h'.priv.kernel ifc ≡ (pos r, k)
      → linux_release_interface os (held h') ifc
        ≡ ok (pos 0, held (with_claim (after os h' k) ifc released))
  unfolding linux_release_interface set_claim
  linux_releases h' r k n d e =
      let within : ltb ifc (length h'.claimed_ifs) ≡ true = ground (arith, known.range) in
      rw (e, within, d) refl

  -- The entry of the interface is written twice, by the backend and by the caller.
  twice :
      (g : DevHandle (LinuxPriv K)) (v w : IfcSet)
      → with_claim (with_claim g ifc v) ifc w ≡ with_claim g ifc w
  twice g v w = ap (λ l. record g { claimed_ifs = l }) (set-set g.claimed_ifs ifc v w)

  size-with_claim :
      (g : DevHandle (LinuxPriv K)) (v : IfcSet)
      → length g.claimed_ifs ≡ max_interfaces
      → length (with_claim g ifc v).claimed_ifs ≡ max_interfaces
  size-with_claim g v n = omega (arith, length-set g.claimed_ifs ifc v)

  slot-with_claim :
      (g : DevHandle (LinuxPriv K)) (v : IfcSet)
      → length g.claimed_ifs ≡ max_interfaces
      → get_elem? (with_claim g ifc v).claimed_ifs ifc ≡ some v
  slot-with_claim g v n = get_elem?-set g.claimed_ifs ifc v (omega (arith, known.range))

  -- On an interface of the configuration in use that is not claimed, over the Linux backend, where
  -- the descriptors are refreshed and the kernel grants both calls and no driver waits to be
  -- attached again: claiming returns 0, the interface is then claimed, with alternate setting 0,
  -- releasing it returns 0, and it is then not claimed.
  pub claim_release_session :
      (r : ℕ) (k1 k2 : K)
      → os.claim_intf h.priv.kernel ifc ≡ (pos 0, k1)
      → os.release_intf k1 ifc ≡ (pos r, k2)
      → h.priv.reattachdrv ≡ false
      → let ops = linux_ops os fetch in
        let h1 = idle (with_claim (after os h k1) ifc claimed_anew) in
        let h2 = idle (with_claim (after os h k2) ifc released) in
        (openusb_claim_interface ops (some (idle h)) ifc flags ≡ ok (pos 0, some h1))
        × (openusb_is_interface_claimed (some h1) ifc ≡ ok (pos 1, some h1))
        × (openusb_release_interface ops (some h1) ifc ≡ ok (pos 0, some h2))
        × (openusb_is_interface_claimed (some h2) ifc ≡ ok (pos 0, some h2))
  unfolding linux_ops is_claimed
  claim_release_session r k1 k2 e1 e2 d =
      let ops = linux_ops os fetch in
      let g1 = with_claim (after os h k1) ifc claimed_anew in
      let g2 = with_claim (after os h k2) ifc released in
      let size1 = size-with_claim (after os h k1) claimed_anew size in
      let slot1 = slot-with_claim (after os h k1) claimed_anew size in
      let slot2 = slot-with_claim (after os h k2) released size in
      let claim = claim_granted ops h ifc flags g1 known fetched (linux_claims k1 e1) size1 in
      let release =
        release_passes ops g1 ifc claimed_anew (pos 0) (with_claim (after os g1 k2) ifc released)
          known.range slot1 refl (linux_releases g1 r k2 size1 d e2) in
      (
        claim
            ∙ ap (λ g. ok (pos 0, some (idle g))) (twice (after os h k1) claimed_anew claimed_anew),
        query ops g1 ifc claimed_anew known.range slot1,
        release ∙ ap (λ g. ok (pos 0, some (idle g))) (twice (after os h k2) claimed_anew released),
        query ops g2 ifc released known.range slot2,
      )

  -- On such an interface, where the kernel refuses the claim and then detaches its driver, claiming
  -- returns 0 and records the claim; the kernel's state is the one after detaching, so it has not
  -- been asked again.
  pub claim_without_grant :
      (e : ℕ) (k1 k2 : K)
      → os.claim_intf h.priv.kernel ifc ≡ (negsuc e, k1)
      → os.disconnect_driver k1 ifc ≡ (pos 0, k2)
      → openusb_claim_interface (linux_ops os fetch) (some (idle h)) ifc flags
        ≡ ok (pos 0, some (idle (with_claim (after os h k2) ifc claimed_anew)))
  unfolding linux_ops linux_claim_interface claim_failed linux_detach_kernel_driver driver_result
  claim_without_grant e k1 k2 e1 e2 =
      let backend : linux_claim_interface os (idle h) ifc flags ≡ ok (pos 0, idle (after os h k2)) =
        rw (at_index-some h.claimed_ifs ifc s slot, free, e1, e2) refl in
      claim_granted (linux_ops os fetch) h ifc flags (after os h k2) known fetched backend size
