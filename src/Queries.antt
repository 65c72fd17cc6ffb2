-- ===== src/Queries.antt =====
-- The descriptor queries of openusb/src/devices.c: walks over the raw bytes of a configuration, from
-- one descriptor's length to the next. The raw descriptors of a device, which the library asks its
-- backend for, are a parameter. The walks have fuel for one round on each byte and one more.
pub mod Walks
pub mod Found
pub mod Fixed
pub mod Configs
use libopenusb.Prelude.{
  ltb, leb, ◌==◌, if◌then◌else◌, codes, length, ℤ, is_neg, ℕ, zero, suc, ◌+◌, ◌-◌, ◌%◌, ◌^◌, ◌⊎◌,
  inl, inr, Bool, true, false, not, ◌&&◌, ◌||◌, Option, none, some, List, [],
}
use libopenusb.Codes.{badarg, parse_error, invalid_handle, type_interface, type_endpoint}
use libopenusb.Run.{Run, ok, fault, no_fuel, ◌>>=◌, load}
use libopenusb.ParseData.{raw, Store, Parsed, openusb_parse_data}

-- The next descriptor, or the end of a walk at a length that is 0 or more than what is left.
pub data Round : Type 0 where
  ended : Round
  onward : ℕ → ℕ → Round

-- if ((sp[0] > 0) && (len >= sp[0])) { len -= sp[0]; sp += sp[0]; } else …
unfoldable pub advance : List ℕ → ℕ → ℕ → Run Round
advance mem sp len =
    load mem sp >>= λ b. ok (if b == 0 || ltb len b then ended else onward (sp + b) (len - b))

-- Is it the descriptor of that interface and alternate setting?
unfoldable pub is_setting : List ℕ → ℕ → ℕ → ℕ → Run Bool
is_setting mem ifc alt sp = elim (load mem (sp + 1)) [
  | ok t ↦ elim (t == type_interface) [
    | true ↦ elim (load mem (sp + 2)) [
      | ok i ↦ elim (i == ifc) [
        | true ↦ load mem (sp + 3) >>= λ a. ok (a == alt)
        | false ↦ ok false
      ]
      | fault ↦ fault
      | no_fuel ↦ no_fuel
    ]
    | false ↦ ok false
  ]
  | fault ↦ fault
  | no_fuel ↦ no_fuel
]

-- The walk of `openusb_parse_interface_desc` (more than 3 bytes left) and of
-- `openusb_parse_endpoint_desc` (more than 4): where the setting is, and what is left there.
unfoldable pub find_setting : List ℕ → ℕ → ℕ → ℕ → ℕ → ℕ → ℕ → Run (Option (ℕ × ℕ))
find_setting mem ifc alt least zero sp len = no_fuel
find_setting mem ifc alt least (suc fuel) sp len = elim (ltb least len) [
  | true ↦ elim (is_setting mem ifc alt sp) [
    | ok true ↦ ok (some (sp, len))
    | ok false ↦ elim (advance mem sp len) [
      | ok ended ↦ ok none
      | ok (onward sp' len') ↦ find_setting mem ifc alt least fuel sp' len'
      | fault ↦ fault
      | no_fuel ↦ no_fuel
    ]
    | fault ↦ fault
    | no_fuel ↦ no_fuel
  ]
  | false ↦ ok none
]

-- The loop of `usbi_nth_desc`, which goes on with one descriptor of the type fewer.
unfoldable pub nth_loop : List ℕ → ℕ → ℕ → ℕ → ℕ → ℕ → ℕ → ℕ → Run (Option ℕ)
nth_loop mem buffer type stop_type zero sp len n = no_fuel
nth_loop mem buffer type stop_type (suc fuel) sp len n = elim (ltb len 2) [
  | true ↦ ok none
  | false ↦ elim (load mem (sp + 1)) [
    | ok t ↦ elim (not (sp == buffer) && t == stop_type) [
      | true ↦ ok none
      | false ↦ elim (t == type && n == 0) [
        | true ↦ ok (some sp)
        | false ↦ elim (advance mem sp len) [
          | ok ended ↦ ok none
          | ok (onward sp' len') ↦
              nth_loop mem buffer type stop_type fuel sp' len' (if t == type then n - 1 else n)
          | fault ↦ fault
          | no_fuel ↦ no_fuel
        ]
      ]
    ]
    | fault ↦ fault
    | no_fuel ↦ no_fuel
  ]
]

unfoldable pub usbi_nth_desc : List ℕ → ℕ → ℕ → ℕ → ℕ → ℕ → Run (Option ℕ)
usbi_nth_desc mem buffer buflen type n stop_type =
    nth_loop mem buffer type stop_type (suc buflen) buffer buflen n

-- The caller's buffer, of `least` bytes at least, or the raw descriptors; an error returns.
unfoldable pub query_buffer : ℕ → Bool → Option (List ℕ × ℕ) → ℤ × List ℕ → Run (ℤ ⊎ (List ℕ × ℕ))
query_buffer least known (some (mem, buflen)) answer = ok (
    if not known
    then inl invalid_handle
    else if ltb buflen least
    then inl badarg
    else inr (mem, buflen))
query_buffer least known none answer = ok (
    if not known
    then inl invalid_handle
    else if is_neg answer.0
    then inl answer.0
    else inr (answer.1, length answer.1 % 2 ^ 16))

-- if ((ret == 0) && (count < least)) ret = OPENUSB_PARSE_ERROR;
unfoldable pub checked_ret : ℕ → Parsed → ℤ
checked_ret least p = elim p.count [
  | some n ↦ if ltb n least then parse_error else p.ret
  | none ↦ p.ret
]

-- The code, and what has been stored at `ifcdesc`.
unfoldable pub openusb_parse_interface_desc :
    Bool → Option (List ℕ × ℕ) → ℤ × List ℕ → ℕ → ℕ → Run (ℤ × List Store)
openusb_parse_interface_desc known buffer answer ifcidx alt =
    query_buffer 9 known buffer answer >>= λ source. elim source [
      | inl e ↦ ok (e, [])
      | inr (mem, len) ↦ find_setting mem ifcidx alt 3 (suc len) 0 len >>= λ found. elim found [
        | none ↦ ok (parse_error, [])
        | some (sp, left) ↦
            openusb_parse_data (some (codes "bbbbbbbbb")) mem (some sp) left (some 0) 9 true
            >>= λ p. ok (checked_ret 9 p, p.stores)
      ]
    ]

-- The code, and what has been stored at `eptdesc`.
unfoldable pub openusb_parse_endpoint_desc :
    Bool → Option (List ℕ × ℕ) → ℤ × List ℕ → ℕ → ℕ → ℕ → Run (ℤ × List Store)
openusb_parse_endpoint_desc known buffer answer ifcidx alt eptidx =
    query_buffer 9 known buffer answer >>= λ source. elim source [
      | inl e ↦ ok (e, [])
      | inr (mem, len) ↦ find_setting mem ifcidx alt 4 (suc len) 0 len >>= λ found. elim found [
        | none ↦ ok (parse_error, [])
        | some (sp, left) ↦ load mem (sp + 4) >>= λ count.
            if leb count eptidx
            then ok (badarg, [])
            else usbi_nth_desc mem sp left type_endpoint eptidx type_interface >>= λ at. elim at [
              | none ↦ ok (parse_error, [])
              | some p ↦
                  openusb_parse_data (some (codes "bbbbwb")) mem (some p) (left - (p - sp)) (some 0)
                    10 true
                  >>= λ d. ok (checked_ret 7 d, d.stores)
            ]
      ]
    ]
