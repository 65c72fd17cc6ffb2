-- ===== src/Descriptors/AltOverread.antt =====
-- `usbi_get_intf_altno` on a block that ends with the buffer.
use libopenusb.Prelude.{
  if◌then◌else◌, length, length-append, get_elem?-ge, Holds, Holds-at, Holds-append, ℕ, zero, suc,
  ◌+◌, ◌^◌, ◌≤◌, ◌<◌, ◌≡◌, List, [], ◌∷◌, arith,
}
use libopenusb.Run.{fault, load}
use libopenusb.Descriptors.Tree.{ExtraDesc, encode_extra, encode_extras, All}
use libopenusb.Descriptors.AltCounter.{
  AltCount, altno_test, altno_step, altno_loop, usbi_get_intf_altno,
}
use libopenusb.Descriptors.AltCountLaws.{
  hits, ScanOk, payload-Holds, advance-small, step-Holds, behind,
}

module _ (mem : List ℕ) (fno buflen : ℕ) (small : buflen < 2 ^ 31) where
  test_past : (s : AltCount) → length mem ≤ s.p + 1 → altno_test mem fno s ≡ fault
  unfolding altno_test load
  test_past s h = ground (arith, get_elem?-ge mem (s.p + 1) h)

  altno_loop-past :
      (r : ExtraDesc) (rs : List ExtraDesc) (fuel : ℕ) (s : AltCount)
      → All ScanOk (r ∷ rs)
      → Holds mem s.p (encode_extras (r ∷ rs))
      → s.len + length (encode_extras (r ∷ rs)) ≡ buflen
      → length mem ≡ s.p + length (encode_extras (r ∷ rs))
      → length (r ∷ rs) < fuel
      → altno_loop mem fno buflen fuel s ≡ fault
  unfolding altno_loop altno_step load
  altno_loop-past r rs zero s v h e b f = absurd (omega arith)
  altno_loop-past r [] (suc fuel) s v h e b f =
      let one = length-append (encode_extra r) [] in
      ground (
        arith,
        one,
        advance-small mem fno buflen small s (length r.payload + 2) v.0.0 (omega arith),
        test_past (behind mem fno buflen small s r) (omega (arith, one)),
      )
  altno_loop-past r (q ∷ rs) (suc fuel) s v h e b f =
      let both : length (encode_extras (r ∷ q ∷ rs))
          ≡ length (encode_extra r) + length (encode_extras (q ∷ rs)) =
        length-append (encode_extra r) (encode_extras (q ∷ rs)) in
      let both_q = length-append (encode_extra q) (encode_extras rs) in
      let parts = Holds-append mem (encode_extra r) (encode_extras (q ∷ rs)) s.p h in
      let parts_q =
        Holds-append mem (encode_extra q) (encode_extras rs) (s.p + length (encode_extra r))
          parts.1 in
      let s' : AltCount = record (behind mem fno buflen small s r) {
        altno = s.altno + (if hits fno q then 1 else 0);
      } in
      let step = step-Holds mem fno buflen small s r s' v.0 parts.0 (omega arith) (
        payload-Holds mem fno buflen small (behind mem fno buflen small s r) q.kind q.payload v.1.0
          parts_q.0) in
      let ih =
        altno_loop-past q rs fuel s' v.1 parts.1 (omega (arith, both)) (omega (arith, both))
          (omega arith) in
      ground (arith, step, ih, both)

-- Where the block ends with the buffer, `usbi_get_intf_altno` leaves the block on descriptors of
-- lengths below 128 that fill it: behind the last descriptor it looks for the type of another.
pub get_intf_altno_overread :
    (mem : List ℕ) (fuel buf buflen k i : ℕ) (payload : List ℕ) (rs : List ExtraDesc)
    → All ScanOk (record { kind = k; payload = i ∷ payload } ∷ rs)
    → Holds mem buf (encode_extras (record { kind = k; payload = i ∷ payload } ∷ rs))
    → length (encode_extras (record { kind = k; payload = i ∷ payload } ∷ rs)) ≡ buflen
    → buflen < 2 ^ 31
    → length mem ≡ buf + buflen
    → length rs + 1 < fuel
    → usbi_get_intf_altno mem fuel buf buflen ≡ fault
unfolding usbi_get_intf_altno load
get_intf_altno_overread mem fuel buf buflen k i payload rs v h e small b f = ground (
  arith,
  Holds-at mem (i ∷ []) {p = buf + 1 + 1} {q = buf + 2} (h.1.1.0, tt) (omega arith),
  altno_loop-past mem i buflen small (record { kind = k; payload = i ∷ payload }) rs fuel
      (record { p = buf; len = 0; altno = 1 }) v h (omega arith) (omega arith) (omega arith),
)
