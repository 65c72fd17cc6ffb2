-- ===== src/Transfers/Checks.antt =====
-- What openusb/src/api.c asks of a request before it is submitted: `check_req_valid`, and the size
-- that a bus takes. The claims, the configuration and the alternate setting of the device, and its
-- control transfers, are given.
use libopenusb.Prelude.{
  ltb, ◌==◌, if◌then◌else◌, length, get_elem?, replicate, ℤ, pos, negsuc, is_neg, ℕ, zero, suc, ◌+◌,
  ◌*◌, ◌%◌, Bool, true, false, not, Option, none, some, List, [],
}
use libopenusb.Codes.{no_resources, badarg, invalid_handle, io_req_too_big, type_config}
use libopenusb.Run.{Run, ok, fault, ◌>>=◌}
use libopenusb.ParseData.{member}
use libopenusb.Fetch.{Device, written, total_length}
use libopenusb.Queries.{openusb_parse_interface_desc, openusb_parse_endpoint_desc}
use libopenusb.Transfers.{Request, XferOps, control, interrupt, bulk, isochronous, has_result}

-- An open device: its operations, the largest transfers of its bus by type, the debug level of its
-- library handle, and the answers of `openusb_is_interface_claimed`, `openusb_get_configuration` and
-- `openusb_get_altsetting`.
pub record Dev : Type 0 where
  pub ops : XferOps
  pub max_xfer_size : List ℕ
  pub debug_level : ℕ
  pub is_interface_claimed : ℕ → Run ℤ
  pub get_configuration : ℤ × ℕ
  pub get_altsetting : ℕ → ℤ × ℕ
  pub control_xfer : Device
  pub alloc : ℕ → Bool
  pub stack : List ℕ

-- The code, and the block with the bytes of the configuration.
unfoldable pub usbi_get_config_desc : Dev → ℕ → Run (ℤ × List ℕ)
usbi_get_config_desc dev cfg =
    let first = dev.control_xfer (type_config * 256 + cfg) 8 in
    if is_neg first.ret
    then ok (first.ret, [])
    else total_length (written first.sent dev.stack) >>= λ len.
        if not (dev.alloc len)
        then ok (no_resources, [])
        else let whole = dev.control_xfer (type_config * 256 + cfg) len in
          if is_neg whole.ret
          then ok (whole.ret, [])
          else ok (pos 0, written whole.sent (replicate len 0))

-- How the loop over the endpoints ends: with an error, with the attributes of the endpoint, or
-- without it.
pub data Search : Type 0 where
  failed : ℤ → Search
  attributes : ℕ → Search
  missing : Search

unfoldable pub find_endpoint : List ℕ → ℕ → ℕ → ℕ → ℕ → ℕ → Run Search
find_endpoint buf ifc alt endpoint zero i = ok missing
find_endpoint buf ifc alt endpoint (suc left) i =
    let rest = find_endpoint buf ifc alt endpoint left (i + 1) in
    openusb_parse_endpoint_desc true (some (buf, length buf)) (pos 0, []) ifc alt i >>= λ r.
    if is_neg r.0
    then ok (failed r.0)
    else if endpoint == member 0 2 r.1
    then ok (attributes (member 0 3 r.1))
    else rest

-- Does the type of a transfer fit the attributes?
unfoldable pub type_code : ℕ → ℕ → ℤ
type_code kind attr =
    if kind == control
    then (if attr % 4 == 0 then pos 0 else invalid_handle)
    else if kind == interrupt
    then (if attr % 4 == 3 then pos 0 else invalid_handle)
    else if kind == bulk
    then (if attr % 4 == 2 then pos 0 else invalid_handle)
    else if kind == isochronous
    then (if attr % 4 == 1 then pos 0 else invalid_handle)
    else invalid_handle

unfoldable pub search_code : ℕ → Search → ℤ
unfolding type_code
search_code kind (failed e) = e
search_code kind (attributes a) = type_code kind a
search_code kind missing = invalid_handle

-- The whole check, for debugging: the endpoint is looked up in the device's configuration.
unfoldable pub full_check : Dev → Request → Run ℤ
unfolding search_code
full_check dev req =
    let (got, cfg) = dev.get_configuration in
    let (claimed, alt) = dev.get_altsetting req.interface in
    if is_neg got
    then ok got
    else if is_neg claimed
    then ok claimed
    else usbi_get_config_desc dev cfg >>= λ d.
        if is_neg d.0
        then ok d.0
        else openusb_parse_interface_desc true (some (d.1, length d.1)) (pos 0, []) req.interface
            alt
          >>= λ i.
              if is_neg i.0
              then ok i.0
              else find_endpoint d.1 req.interface alt req.endpoint (member 0 4 i.1) 0 >>= λ found.
                  ok (search_code req.kind found)

abbrev is_one : ℤ → Bool
is_one (pos n) = n == 1
is_one (negsuc n) = false

unfoldable pub check_req_valid : Dev → Request → Run ℤ
check_req_valid dev req =
    if req.endpoint == 0
    then ok (if req.kind == control then pos 0 else negsuc 0)
    else if ltb dev.debug_level 5
    then (dev.is_interface_claimed req.interface >>= λ c. ok (if is_one c then pos 0 else negsuc 0))
    else full_check dev req

-- The check of the size in `openusb_xfer_wait`: the code that is returned, if any. A type past the array
-- is read out of bounds.
unfoldable pub size_code : List ℕ → Request → Run (Option ℤ)
size_code limits req = elim (get_elem? limits req.kind) [
  | none ↦ fault
  | some most ↦ ok (
      if most == 0
      then none
      else if not (has_result req.kind)
      then some badarg
      else if req.kind == isochronous
      then none
      else if ltb most req.size
      then some io_req_too_big
      else none)
]

-- The check of the size in `openusb_xfer_aio`, which is written out again
unfoldable pub aio_size_code : List ℕ → Request → Run (Option ℤ)
aio_size_code limits req = elim (get_elem? limits req.kind) [
  | none ↦ fault
  | some most ↦ ok (
      if most == 0
      then none
      else if not (has_result req.kind)
      then some badarg
      else if req.kind == isochronous
      then none
      else if ltb most req.size
      then some io_req_too_big
      else none)
]
