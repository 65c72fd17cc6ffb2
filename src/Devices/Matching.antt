-- ===== src/Devices/Matching.antt =====
-- What `usbi_match_class` of openusb/src/devices.c takes for a match.
use libopenusb.Prelude.{
  ◌==◌, Holds, Holds-mid, pos, ℕ, ◌≡◌, refl, subst, ◌≢◌, true, false, none, some, List, [],
  append-nil, arith,
}
use libopenusb.Codes.{success, type_device}
use libopenusb.Run.{ok}
use libopenusb.ParseData.Layout.{InRange, encode, layout}
use libopenusb.Queries.Fixed.{
  DeviceDesc, device_fields, openusb_parse_device_desc, parse_device_desc-encode,
}
use libopenusb.Devices.Search.{Raw, Wanted, fits, usbi_match_class}

Holds-self : (xs : List ℕ) → Holds xs 0 xs
Holds-self xs = subst (λ l. Holds l 0 xs) (append-nil xs) (Holds-mid [] xs [])

device_parsed :
    (raw : Raw) (r : ℕ) (d : DeviceDesc)
    → raw type_device 0 ≡ (pos r, encode (device_fields d))
    → InRange (device_fields d)
    → openusb_parse_device_desc true none (raw type_device 0)
      ≡ ok (success, layout 0 (device_fields d))
device_parsed raw r d e range =
    let mem = encode (device_fields d) in
    rw e
      (parse_device_desc-encode mem (omega arith) d (pos 0, []) r range (Holds-self mem)
        (omega arith)).1

-- A device whose class and subclass are those asked for matches whatever protocol is asked for, if its
-- own protocol is not 0.
pub match_class-any_protocol :
    (raw : Raw) (r : ℕ) (d : DeviceDesc) (w : Wanted) (n : ℕ)
    → raw type_device 0 ≡ (pos r, encode (device_fields d))
    → InRange (device_fields d)
    → fits w.devclass d.b_device_class ≡ true
    → fits w.subclass d.b_device_sub_class ≡ true
    → w.protocol ≡ some n
    → d.b_device_protocol ≢ 0
    → usbi_match_class raw w ≡ ok true
unfolding usbi_match_class
match_class-any_protocol raw r d w n e range c s p q =
    let z : (d.b_device_protocol == 0) ≡ false = ground (arith, q) in
    rw (device_parsed raw r d e range, c, s, p, z) refl
