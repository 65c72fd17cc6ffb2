-- ===== src/Library/Errors.antt =====
-- The texts of the error codes (openusb/src/usb.c).
use libopenusb.Prelude.{◌==◌, if◌then◌else◌, ℤ, pos, negsuc, String, Bool, false, List, [], ◌∷◌}

-- struct errorstr
pub record ErrorText : Type 0 where
  pub code : ℤ
  pub msg : String

abbrev error_text : ℤ → String → ErrorText
error_text c m = record { code = c; msg = m }

-- errorstrs
abbrev pub error_texts : List ErrorText
error_texts =
    error_text (pos 0) "Call success"
    ∷ error_text (negsuc 0) "Unspecified kernel/driver failure"
    ∷ error_text (negsuc 1) "No resources available"
    ∷ error_text (negsuc 2) "No bandwidth available"
    ∷ error_text (negsuc 3) "Not supported by HCD"
    ∷ error_text (negsuc 4) "USB host controller error"
    ∷ error_text (negsuc 5) "Privileged operation"
    ∷ error_text (negsuc 6) "Busy condition"
    ∷ error_text (negsuc 7) "Invalid parameter"
    ∷ error_text (negsuc 8) "Access to device denied"
    ∷ error_text (negsuc 9) "Data could not be parsed"
    ∷ error_text (negsuc 10) "Device id is stale or invalid"
    ∷ error_text (negsuc 11) "Handle is invalid"
    ∷ error_text (negsuc 12) "Call other system function failed"
    ∷ error_text (negsuc 13) "Can not find bus or device"
    ∷ error_text (negsuc 49) "Endpoint stalled"
    ∷ error_text (negsuc 50) "CRC error"
    ∷ error_text (negsuc 51) "Device hung"
    ∷ error_text (negsuc 52) "Request too big"
    ∷ error_text (negsuc 53) "Bit stuffing error"
    ∷ error_text (negsuc 54) "Unexpected PID"
    ∷ error_text (negsuc 55) "Data overrun"
    ∷ error_text (negsuc 56) "Data underrun"
    ∷ error_text (negsuc 57) "Buffer overrun"
    ∷ error_text (negsuc 58) "Buffer underrun"
    ∷ error_text (negsuc 59) "PID check failure"
    ∷ error_text (negsuc 60) "Data toggle mismatch"
    ∷ error_text (negsuc 61) "I/O timeout"
    ∷ error_text (negsuc 62) "I/O canceled"
    ∷ []

abbrev same_code : ℤ → ℤ → Bool
same_code (pos a) (pos b) = a == b
same_code (negsuc a) (negsuc b) = a == b
same_code (pos a) (negsuc b) = false
same_code (negsuc a) (pos b) = false

unfoldable pub text_in : ℤ → List ErrorText → String
text_in error [] = "Unknown error"
text_in error (e ∷ es) =
    let rest = text_in error es in if same_code e.code error then e.msg else rest

unfoldable pub openusb_strerror : ℤ → String
unfolding text_in
openusb_strerror error = text_in error error_texts
