-- ===== src/Tests/Claims.antt =====
-- Two interfaces of a device, over a kernel that counts the interfaces that it has granted.
use libopenusb.Prelude.{
  ◌==◌, if◌then◌else◌, replicate, ℤ, pos, negsuc, ℕ, ◌+◌, ◌-◌, ◌<◌, ◌≡◌, refl, false, some, [], ◌∷◌,
  arith,
}
use libopenusb.Codes.{badarg, parse_error}
use libopenusb.Run.{Run, ok, fault, no_fuel}
use libopenusb.Descriptors.{Config}
use libopenusb.Descriptors.ConfigParser.{zero_config}
use libopenusb.Interfaces.{
  IfcSet, DevHandle, is_claimed, openusb_claim_interface, openusb_is_interface_claimed,
  openusb_release_interface, openusb_set_altsetting, openusb_get_altsetting,
}
use libopenusb.Interfaces.Linux.{Kernel, LinuxPriv, after, linux_ops}
use libopenusb.Interfaces.Outcomes.{
  idle, held, with_claim, Known, claim_refused, interface_32-fault, set_altsetting_keeps_lock,
}
use libopenusb.Interfaces.LinuxSessions.{
  claimed_anew, released, claim_release_session, claim_without_grant,
}

abbrev config : Config
config = record zero_config { num_interfaces = 2 }

-- A kernel whose state is the number of its grants; a driver holds interface 1.
abbrev kernel : Kernel ℕ
kernel = record {
  claim_intf = λ k ifc. if ifc == 0 then (pos 0, k + 1) else (negsuc 0, k);
  claim_intf_byte = λ k ifc. (pos 0, k + 1);
  release_intf = λ k ifc. (pos 0, k - 1);
  set_intf = λ k ifc alt. (pos 0, k);
  connect_driver = λ k ifc. (pos 0, k);
  disconnect_driver = λ k ifc. (pos 0, k);
  failure = λ k. badarg;
}

abbrev unclaimed : IfcSet
unclaimed = record { clm = negsuc 0; altsetting = negsuc 0 }

abbrev opened : DevHandle (LinuxPriv ℕ)
opened = record {
  handle = 1;
  claimed_ifs = replicate 32 unclaimed;
  cur_config_index = pos 0;
  configs = config ∷ [];
  locked = false;
  priv = record { kernel = 0; reattachdrv = false };
}

abbrev cached : DevHandle (LinuxPriv ℕ) → Run (ℤ × DevHandle (LinuxPriv ℕ))
cached h = ok (pos 0, h)

opened-Known : (ifc : ℕ) → ifc < 2 → Known opened ifc
opened-Known ifc lt = record {
  index = 0;
  cfg = config;
  chosen = refl;
  found = refl;
  within = lt;
  range = omega arith;
}

abbrev granted : DevHandle (LinuxPriv ℕ)
granted = idle (with_claim (after kernel opened 1) 0 claimed_anew)

abbrev given_back : DevHandle (LinuxPriv ℕ)
given_back = idle (with_claim (after kernel opened 0) 0 released)

claim_release_session_example :
    (openusb_claim_interface (linux_ops kernel cached) (some opened) 0 0 ≡ ok (pos 0, some granted))
    × (openusb_is_interface_claimed (some granted) 0 ≡ ok (pos 1, some granted))
    × (openusb_release_interface (linux_ops kernel cached) (some granted) 0
        ≡ ok (pos 0, some given_back))
    × (openusb_is_interface_claimed (some given_back) 0 ≡ ok (pos 0, some given_back))
unfolding is_claimed
claim_release_session_example =
    claim_release_session kernel cached opened 0 0 unclaimed (opened-Known 0 (omega arith)) refl
      refl refl refl 0 1 0 refl refl refl

claim_without_grant_example :
    openusb_claim_interface (linux_ops kernel cached) (some opened) 1 0
    ≡ ok (pos 0, some (idle (with_claim (after kernel opened 0) 1 claimed_anew)))
unfolding is_claimed
claim_without_grant_example =
    claim_without_grant kernel cached opened 1 0 unclaimed (opened-Known 1 (omega arith)) refl refl
      refl refl 0 0 0 refl refl

claim_refused_example :
    openusb_claim_interface
      (record (linux_ops kernel cached) { claim_interface = λ h ifc flags. ok (negsuc 6, h) })
      (some opened)
      1
      0
    ≡ ok (negsuc 6, some opened)
unfolding linux_ops
claim_refused_example =
    claim_refused
      (record (linux_ops kernel cached) { claim_interface = λ h ifc flags. ok (negsuc 6, h) })
      opened 1 0 (negsuc 6) opened (opened-Known 1 (omega arith)) refl refl refl

interface_32-fault_example :
    (openusb_is_interface_claimed (some opened) 32 ≡ fault)
    × (openusb_release_interface (linux_ops kernel cached) (some opened) 32 ≡ fault)
    × (openusb_get_altsetting (linux_ops kernel cached) (some opened) 32 ≡ fault)
interface_32-fault_example = interface_32-fault (linux_ops kernel cached) opened 32 refl refl

abbrev unconfigured : DevHandle (LinuxPriv ℕ)
unconfigured = record opened { cur_config_index = negsuc 0 }

set_altsetting_keeps_lock_example :
    (openusb_set_altsetting (linux_ops kernel cached) (some unconfigured) 0 1
      ≡ ok (parse_error, some (held unconfigured)))
    × (openusb_is_interface_claimed (some (held unconfigured)) 1 ≡ no_fuel)
unfolding linux_ops
set_altsetting_keeps_lock_example =
    set_altsetting_keeps_lock (linux_ops kernel cached) unconfigured 0 1 1 0 (omega arith)
      (omega arith) refl refl
