-- ===== src/Descriptors/Skip.antt =====
-- The loops of openusb/src/descriptors.c that pass over class and vendor specific descriptors: in
-- `usbi_parse_endpoint` and `usbi_parse_interface` (lengths of 32 bits, the descriptor's length not
-- compared with what is left) and in `usbi_parse_configuration` (a `size_t`, and compared).
use libopenusb.Prelude.{
  ltb, ℕ, zero, suc, ◌+◌, ◌^◌, Bool, true, false, ◌&&◌, ◌||◌, Option, none, some, List,
}
use libopenusb.Run.{Run, ok, fault, no_fuel}
use libopenusb.Descriptors.{Header, read_header, is_proper, wrap_sub}

-- The variables of the loop.
pub record Skip : Type 0 where
  pub buf : ℕ
  pub buflen : ℕ
  pub parsed : ℕ
  pub extra_len : ℕ
  pub header : Header

-- Which of the loops: the number of values of `buflen`, and whether its bound is checked.
pub record Loop : Type 0 where
  pub modulus : ℕ
  pub checked : Bool

abbrev pub unchecked_loop : Loop
unchecked_loop = record { modulus = 2 ^ 32; checked = false }

abbrev pub checked_loop : Loop
checked_loop = record { modulus = 2 ^ 64; checked = true }

-- The test of the header's length; the function returns -1 if it fails.
unfoldable pub invalid_length : Loop → Skip → Header → Bool
invalid_length l s h = l.checked && ltb s.buflen h.b_length || ltb h.b_length 2

unfoldable pub passed : Loop → Skip → Header → Skip
passed l s h = record {
  buf = s.buf + h.b_length;
  buflen = wrap_sub l.modulus s.buflen h.b_length;
  parsed = s.parsed + h.b_length;
  extra_len = s.extra_len + h.b_length;
  header = h;
}

-- The loop, from the state at its test; `none` where the function returns -1.
unfoldable pub skip_extra : Loop → List ℕ → ℕ → Skip → Run (Option Skip)
unfolding invalid_length passed
skip_extra l mem zero s = no_fuel
skip_extra l mem (suc fuel) s = elim (ltb s.buflen 2) [
  | true ↦ ok (some s)
  | false ↦ elim (read_header mem s.buf s.buflen s.header) [
    | ok h ↦ elim (invalid_length l s h) [
      | true ↦ ok none
      | false ↦ elim (is_proper h.b_descriptor_type) [
        | true ↦ ok (some (record s { header = h }))
        | false ↦ skip_extra l mem fuel (passed l s h)
      ]
    ]
    | fault ↦ fault
    | no_fuel ↦ no_fuel
  ]
]
