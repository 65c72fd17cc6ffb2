-- ===== src/Descriptors/AltCountLaws.antt =====
-- `usbi_get_intf_altno` counts the interface descriptors of one number. Descriptors are read here
-- as their type and what follows the header, whatever their type.
use libopenusb.Prelude.{
  ◌==◌, if◌then◌else◌, length, get_elem?, length-append, Holds, Holds-at, Holds-append, ℕ, zero,
  suc, ◌+◌, ◌^◌, ◌≤◌, ◌<◌, ◌≡◌, subst, ◌≢◌, Bool, false, ◌&&◌, some, List, [], ◌∷◌, tail, arith,
}
use libopenusb.Codes.{type_interface}
use libopenusb.Run.{ok, load}
use libopenusb.Descriptors.Tree.{ExtraDesc, encode_extra, encode_extras, All}
use libopenusb.Descriptors.AltCounter.{
  AltCount, altno_advance, altno_test, altno_step, altno_loop, usbi_get_intf_altno,
}

-- Is it an interface descriptor of that number?
abbrev pub hits : ℕ → ExtraDesc → Bool
hits fno r = elim r.payload [ [] ↦ false | i ∷ _ ↦ r.kind == type_interface && i == fno ]

abbrev pub count_hits : ℕ → List ExtraDesc → ℕ
count_hits fno [] = 0
count_hits fno (r ∷ rs) = (if hits fno r then 1 else 0) + count_hits fno rs

-- The length is positive as a `char`, and an interface descriptor has its number.
abbrev pub ScanOk : ExtraDesc → Type 0
ScanOk r = (length r.payload + 2 < 128) × (r.kind ≡ type_interface → 0 < length r.payload)

module _ (mem : List ℕ) (fno buflen : ℕ) (small : buflen < 2 ^ 31) where
  pub payload-Holds :
      (s : AltCount) (k : ℕ) (payload : List ℕ)
      → ScanOk (record { kind = k; payload = payload })
      → Holds mem s.p (encode_extra (record { kind = k; payload = payload }))
      → altno_test mem fno s
        ≡ ok (record s {
          altno = s.altno + (if hits fno (record { kind = k; payload = payload }) then 1 else 0);
        })
  unfolding altno_test load
  payload-Holds s k [] v h = ground arith
  payload-Holds s k (i ∷ is) v h =
      ground
        (arith, Holds-at mem (i ∷ []) {p = s.p + 1 + 1} {q = s.p + 2} (h.1.1.0, tt) (omega arith))

  pub advance-small :
      (s : AltCount) (b : ℕ)
      → b < 128
      → s.len + b ≤ buflen
      → altno_advance s b ≡ ok (record s { p = s.p + b; len = s.len + b })
  unfolding altno_advance
  advance-small s b lt le = ground arith

  -- One round over a descriptor, whatever the test then finds.
  pub step-Holds :
      (s : AltCount) (r : ExtraDesc) (s' : AltCount)
      → ScanOk r
      → Holds mem s.p (encode_extra r)
      → s.len + length (encode_extra r) ≤ buflen
      → altno_test mem fno
          (record s { p = s.p + length (encode_extra r); len = s.len + length (encode_extra r) })
        ≡ ok s'
      → altno_step mem fno s ≡ ok s'
  unfolding altno_step load
  step-Holds s r s' v h le t =
      ground (arith, advance-small s (length r.payload + 2) v.0 (omega arith))

  test_end :
      (s : AltCount) (t : ℕ)
      → get_elem? mem (s.p + 1) ≡ some t
      → t ≢ type_interface
      → altno_test mem fno s ≡ ok s
  unfolding altno_test load
  test_end s t b ne = ground arith

  -- The state at the descriptor behind `r`, not yet counted.
  abbrev pub behind : AltCount → ExtraDesc → AltCount
  behind s r = record s { p = s.p + length (encode_extra r); len = s.len + length (encode_extra r) }

  -- The count over a run of descriptors whose first has been counted, with a byte behind the end
  -- of the buffer that is no interface's type.
  pub altno_loop-encode :
      (rs : List ExtraDesc) (fuel : ℕ) (s : AltCount) (t : ℕ)
      → All ScanOk rs
      → Holds mem s.p (encode_extras rs)
      → s.len + length (encode_extras rs) ≡ buflen
      → get_elem? mem (s.p + length (encode_extras rs) + 1) ≡ some t
      → t ≢ type_interface
      → length rs < fuel
      → altno_loop mem fno buflen fuel s ≡ ok (s.altno + count_hits fno (tail rs))
  unfolding altno_loop
  altno_loop-encode rs zero s t v h e b ne f = absurd (omega arith)
  altno_loop-encode [] (suc fuel) s t v h e b ne f = ground arith
  altno_loop-encode (r ∷ []) (suc (suc fuel)) s t v h e b ne f =
      let one = length-append (encode_extra r) [] in
      let parts = Holds-append mem (encode_extra r) [] s.p h in
      let at_end : get_elem? mem (s.p + length (encode_extra r) + 1) ≡ some t =
        subst (λ x. get_elem? mem (s.p + x + 1) ≡ some t) (omega (arith, one)) b in
      let step =
        step-Holds s r (behind s r) v.0 parts.0 (omega (arith, one))
          (test_end (behind s r) t at_end ne) in
      ground (arith, step, one)
  altno_loop-encode (r ∷ q ∷ rs) (suc fuel) s t v h e b ne f =
      let both : length (encode_extras (r ∷ q ∷ rs))
          ≡ length (encode_extra r) + length (encode_extras (q ∷ rs)) =
        length-append (encode_extra r) (encode_extras (q ∷ rs)) in
      let both_q = length-append (encode_extra q) (encode_extras rs) in
      let parts = Holds-append mem (encode_extra r) (encode_extras (q ∷ rs)) s.p h in
      let parts_q =
        Holds-append mem (encode_extra q) (encode_extras rs) (s.p + length (encode_extra r))
          parts.1 in
      let s' : AltCount = record (behind s r) { altno = s.altno + (if hits fno q then 1 else 0) } in
      let step =
        step-Holds s r s' v.0 parts.0 (omega arith)
          (payload-Holds (behind s r) q.kind q.payload v.1.0 parts_q.0) in
      let at_end : get_elem? mem (s'.p + length (encode_extras (q ∷ rs)) + 1) ≡ some t =
        subst (λ x. get_elem? mem (x + 1) ≡ some t) (omega (arith, both)) b in
      let ih =
        altno_loop-encode (q ∷ rs) fuel s' t v.1 parts.1 (omega (arith, both)) at_end ne
          (omega arith) in
      ground (arith, step, ih, both)
  altno_loop-encode (r ∷ []) (suc zero) s t v h e b ne f = absurd (omega arith)

-- `usbi_get_intf_altno` counts: on a buffer that holds descriptors of lengths below 128, and whose
-- byte after next behind it is not the type of an interface, it returns one more than the number of
-- interface descriptors behind the first that have the number in the first one's payload.
pub get_intf_altno-encode :
    (mem : List ℕ) (fuel buf buflen k i t : ℕ) (payload : List ℕ) (rs : List ExtraDesc)
    → All ScanOk (record { kind = k; payload = i ∷ payload } ∷ rs)
    → Holds mem buf (encode_extras (record { kind = k; payload = i ∷ payload } ∷ rs))
    → length (encode_extras (record { kind = k; payload = i ∷ payload } ∷ rs)) ≡ buflen
    → buflen < 2 ^ 31
    → get_elem? mem (buf + buflen + 1) ≡ some t
    → t ≢ type_interface
    → length rs + 1 < fuel
    → usbi_get_intf_altno mem fuel buf buflen ≡ ok (1 + count_hits i rs)
unfolding usbi_get_intf_altno load
get_intf_altno-encode mem fuel buf buflen k i t payload rs v h e small b ne f = ground (
  arith,
  Holds-at mem (i ∷ []) {p = buf + 1 + 1} {q = buf + 2} (h.1.1.0, tt) (omega arith),
  altno_loop-encode mem i buflen small (record { kind = k; payload = i ∷ payload } ∷ rs) fuel
      (record { p = buf; len = 0; altno = 1 }) t v h (omega arith) (rw e b) ne (omega arith),
)
