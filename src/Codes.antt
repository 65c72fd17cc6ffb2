-- ===== src/Codes.antt =====
-- The return codes and constants of openusb/src/openusb.h.in and openusb/src/descr.h.
use libopenusb.Prelude.{ℕ, ℤ, pos, negsuc}

abbrev pub success : ℤ
success = pos 0

abbrev pub platform_failure : ℤ
platform_failure = negsuc 0

abbrev pub no_resources : ℤ
no_resources = negsuc 1

abbrev pub not_supported : ℤ
not_supported = negsuc 3

abbrev pub badarg : ℤ
badarg = negsuc 7

abbrev pub parse_error : ℤ
parse_error = negsuc 9

abbrev pub unknown_device : ℤ
unknown_device = negsuc 10

abbrev pub invalid_handle : ℤ
invalid_handle = negsuc 11

abbrev pub null_list : ℤ
null_list = negsuc 13

abbrev pub io_req_too_big : ℤ
io_req_too_big = negsuc 52

-- USB_DESC_TYPE_*
abbrev pub type_device : ℕ
type_device = 1

abbrev pub type_config : ℕ
type_config = 2

abbrev pub type_string : ℕ
type_string = 3

abbrev pub type_interface : ℕ
type_interface = 4

abbrev pub type_endpoint : ℕ
type_endpoint = 5
