-- ===== src/Devices/Search.antt =====
-- Searching devices by vendor and product, and by class (openusb/src/devices.c). A number asked for
-- is `none` where the program passes -1, for any. The raw descriptors of a device are given.
use libopenusb.Prelude.{
  ltb, ◌==◌, if◌then◌else◌, length, ℤ, pos, negsuc, is_neg, ℕ, zero, suc, ◌+◌, ◌-◌, ◌*◌, ◌/◌, ◌%◌,
  ◌^◌, Bool, true, false, not, ◌&&◌, ◌||◌, Option, none, some, List, [], ◌∷◌,
}
use libopenusb.Codes.{badarg, invalid_handle, type_device, type_config, type_interface}
use libopenusb.Run.{Run, ok, no_fuel, ◌>>=◌, load}
use libopenusb.ParseData.{Store, member}
use libopenusb.Queries.{openusb_parse_interface_desc}
use libopenusb.Queries.Fixed.{openusb_parse_device_desc, openusb_parse_config_desc}
use libopenusb.Devices.{System, id_list}

-- The answers of a backend for a raw descriptor, by type and index
abbrev pub Raw : Type 0
Raw = ℕ → ℕ → ℤ × List ℕ

-- `num_alt` has 8 bits; `buflen` has 16, and the loop ends below 3 of them.
unfoldable pub num_alt_loop : List ℕ → ℕ → ℕ → ℕ → ℕ → ℕ → Run ℤ
num_alt_loop mem infidx zero p buflen num = no_fuel
num_alt_loop mem infidx (suc fuel) p buflen num =
    if ltb buflen 3
    then ok (if num == 0 then negsuc 0 else pos num)
    else (load mem (p + 1) >>= λ t. load mem (p + 2) >>= λ n.
        if t == type_interface && ltb infidx n
        then ok (if num == 0 then negsuc 0 else pos num)
        else (load mem p >>= λ len.
            if len == 0 || ltb buflen len
            then ok (negsuc 0)
            else num_alt_loop mem infidx fuel (p + len) (buflen - len)
                (if t == type_interface && n == infidx then (num + 1) % 2 ^ 8 else num)))

unfoldable pub usbi_get_num_altsettings : Option (List ℕ) → ℕ → ℕ → Run ℤ
usbi_get_num_altsettings none buflen infidx = ok (negsuc 0)
usbi_get_num_altsettings (some mem) buflen infidx =
    if buflen == 0 then ok (negsuc 0) else num_alt_loop mem infidx (suc buflen) 0 buflen 0

-- The class, subclass and protocol asked for
pub record Wanted : Type 0 where
  pub devclass : Option ℕ
  pub subclass : Option ℕ
  pub protocol : Option ℕ

abbrev pub fits : Option ℕ → ℕ → Bool
fits none x = true
fits (some n) x = n == x

-- The alternate settings of an interface from `a` on
unfoldable pub any_setting : List ℕ → ℕ → Wanted → ℕ → ℕ → Run Bool
any_setting buf i w zero a = ok false
any_setting buf i w (suc left) a =
    let rest = any_setting buf i w left (a + 1) in
    openusb_parse_interface_desc true (some (buf, length buf)) (pos 0, []) i a >>= λ r.
    if is_neg r.0
    then rest
    else if fits w.devclass (member 0 5 r.1)
        && fits w.subclass (member 0 6 r.1)
        && fits w.protocol (member 0 7 r.1)
    then ok true
    else rest

-- The interfaces of a configuration from `i` on
unfoldable pub any_interface : List ℕ → Wanted → ℕ → ℕ → Run Bool
any_interface buf w zero i = ok false
any_interface buf w (suc left) i =
    let rest = any_interface buf w left (i + 1) in
    usbi_get_num_altsettings (some buf) (length buf) i >>= λ n. elim n [
      | negsuc k ↦ rest
      | pos k ↦ any_setting buf i w k 0 >>= λ found. if found then ok true else rest
    ]

-- The configurations from `c` on
unfoldable pub any_config : Raw → Wanted → ℕ → ℕ → Run Bool
any_config raw w zero c = ok false
any_config raw w (suc left) c =
    let rest = any_config raw w left (c + 1) in
    let (ret, buf) = raw type_config c in
    if is_neg ret
    then rest
    else (openusb_parse_config_desc true (some (buf, length buf)) (pos 0, []) >>= λ d.
        if is_neg d.0
        then rest
        else (any_interface buf w (member 0 4 d.1) 0 >>= λ found. if found then ok true else rest))

-- The test of the device: with class and subclass fitting, the protocol is not compared but assigned,
-- and stays so for the interfaces.
unfoldable pub device_test : Wanted → List Store → Bool × Wanted
device_test w d =
    if fits w.devclass (member 0 4 d) && fits w.subclass (member 0 5 d)
    then elim w.protocol [
      | none ↦ (true, w)
      | some n ↦ (not (member 0 6 d == 0), record w { protocol = some (member 0 6 d) })
    ]
    else (false, w)

unfoldable pub usbi_match_class : Raw → Wanted → Run Bool
unfolding device_test
usbi_match_class raw w = openusb_parse_device_desc true none (raw type_device 0) >>= λ d.
    if is_neg d.0
    then ok false
    else let (matched, w') = device_test w d.1 in
      if matched then ok true else any_config raw w' (member 0 17 d.1) 0

-- The devices that match, in their order
unfoldable pub matching : (ℕ → Run Bool) → List ℕ → Run (List ℕ)
matching test [] = ok []
matching test (d ∷ ds) = do
  matched ← test d
  rest ← matching test ds
  ok (if matched then d ∷ rest else rest)

abbrev pub above : ℕ → Option ℕ → Bool
above most none = false
above most (some n) = ltb most n

-- The raw descriptors by device
unfoldable pub openusb_get_devids_by_class :
    Bool → Bool → (ℕ → Raw) → Wanted → System → Run (ℤ × List ℕ)
unfolding matching
openusb_get_devids_by_class known memory raw w sys =
    if not known
    then ok (invalid_handle, [])
    else if above 255 w.devclass || above 255 w.subclass || above 255 w.protocol
    then ok (badarg, [])
    else (matching (λ d. usbi_match_class (raw d) w) sys.devices >>= λ ds. ok (id_list memory ds))

-- openusb_le16_to_cpu: on a machine of the other byte order the bytes are exchanged.
unfoldable pub openusb_le16_to_cpu : Bool → ℕ → ℕ
openusb_le16_to_cpu big x = if big then x / 256 + x % 256 * 256 else x

unfoldable pub openusb_le32_to_cpu : Bool → ℕ → ℕ
openusb_le32_to_cpu big x =
    if big
    then x / 2 ^ 24 + x / 2 ^ 16 % 256 * 2 ^ 8 + x / 2 ^ 8 % 256 * 2 ^ 16 + x % 256 * 2 ^ 24
    else x

unfoldable pub match_vendor : Bool → Option ℕ → Option ℕ → Raw → Run Bool
unfolding openusb_le16_to_cpu
match_vendor big vendor product raw =
    openusb_parse_device_desc true none (raw type_device 0) >>= λ d. ok (
      not (is_neg d.0)
      && fits vendor (openusb_le16_to_cpu big (member 0 8 d.1))
      && fits product (openusb_le16_to_cpu big (member 0 10 d.1)))

unfoldable pub openusb_get_devids_by_vendor :
    Bool → Bool → Bool → (ℕ → Raw) → Option ℕ → Option ℕ → System → Run (ℤ × List ℕ)
unfolding matching
openusb_get_devids_by_vendor big known memory raw vendor product sys =
    if not known
    then ok (invalid_handle, [])
    else if above 65535 vendor || above 65535 product
    then ok (badarg, [])
    else (matching (λ d. match_vendor big vendor product (raw d)) sys.devices >>= λ ds.
        ok (id_list memory ds))
