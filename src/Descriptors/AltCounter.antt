-- ===== src/Descriptors/AltCounter.antt =====
-- `usbi_get_intf_altno` of openusb/src/descriptors.c, which counts the alternate settings of an
-- interface. Fuel bounds the rounds of its loop, which C does not bound.
-- The variables of the loop; `len` is an `int` by its 32 bits.
use libopenusb.Prelude.{ltb, ◌==◌, if◌then◌else◌, ℕ, zero, suc, ◌+◌, ◌-◌, ◌%◌, true, false, List}
use libopenusb.Codes.{type_interface}
use libopenusb.Run.{Run, ok, fault, no_fuel, load}
use libopenusb.ParseData.{u32_mod}

pub record AltCount : Type 0 where
  pub p : ℕ
  pub len : ℕ
  pub altno : ℕ

-- hlen = p[0]; p += hlen; len += hlen; where `char` is signed. A pointer before the block faults.
unfoldable pub altno_advance : AltCount → ℕ → Run AltCount
altno_advance s h =
    if ltb h 128
    then ok (record s { p = s.p + h; len = (s.len + h) % u32_mod })
    else if ltb s.p (256 - h)
    then fault
    else ok (record s { p = s.p - (256 - h); len = (s.len + u32_mod - (256 - h)) % u32_mod })

-- if ((p[1] == USB_DESC_TYPE_INTERFACE) && (p[2] == fno)) altno++;
unfoldable pub altno_test : List ℕ → ℕ → AltCount → Run AltCount
altno_test mem fno s = elim (load mem (s.p + 1)) [
  | ok t ↦ elim (t == type_interface) [
    | true ↦ elim (load mem (s.p + 2)) [
      | ok f ↦ ok (if f == fno then record s { altno = s.altno + 1 } else s)
      | fault ↦ fault
      | no_fuel ↦ no_fuel
    ]
    | false ↦ ok s
  ]
  | fault ↦ fault
  | no_fuel ↦ no_fuel
]

unfoldable pub altno_step : List ℕ → ℕ → AltCount → Run AltCount
unfolding altno_advance altno_test
altno_step mem fno s = elim (load mem s.p) [
  | ok h ↦ elim (altno_advance s h) [
    | ok s' ↦ altno_test mem fno s'
    | fault ↦ fault
    | no_fuel ↦ no_fuel
  ]
  | fault ↦ fault
  | no_fuel ↦ no_fuel
]

unfoldable pub altno_loop : List ℕ → ℕ → ℕ → ℕ → AltCount → Run ℕ
altno_loop mem fno buflen zero s = no_fuel
altno_loop mem fno buflen (suc fuel) s = elim (ltb s.len buflen) [
  | true ↦ elim (altno_step mem fno s) [
    | ok s' ↦ altno_loop mem fno buflen fuel s'
    | fault ↦ fault
    | no_fuel ↦ no_fuel
  ]
  | false ↦ ok s.altno
]

unfoldable pub usbi_get_intf_altno : List ℕ → ℕ → ℕ → ℕ → Run ℕ
usbi_get_intf_altno mem fuel buf buflen = elim (load mem (buf + 2)) [
  | ok fno ↦ altno_loop mem fno buflen fuel (record { p = buf; len = 0; altno = 1 })
  | fault ↦ fault
  | no_fuel ↦ no_fuel
]
