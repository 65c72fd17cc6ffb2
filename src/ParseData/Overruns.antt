-- ===== src/ParseData/Overruns.antt =====
-- Two formats with which `openusb_parse_data` leaves the bounds that it was given.
-- With the format "bw" and an even destination of three bytes, a call that has three bytes to read
-- returns success and stores past the end of the destination.
use libopenusb.Prelude.{
  codes, length, get_elem?-lt, ℕ, ◌+◌, ◌*◌, ◌%◌, ◌≤◌, ◌<◌, ◌≡◌, refl, true, some, List, [], ◌∷◌,
  arith,
}
use libopenusb.Codes.{success}
use libopenusb.Run.{ok, load}
use libopenusb.ParseData.{num, align_word, parse_step, parse_loop, Parsed, openusb_parse_data}
use libopenusb.ParseData.Bounds.{Within}

pub parse_data_overrun :
    (mem : List ℕ) (source sourcelen dest : ℕ)
    → dest % 2 ≡ 0
    → 3 ≤ sourcelen
    → source + sourcelen ≤ length mem
    → (p : Parsed) × (openusb_parse_data
          (some (codes "bw"))
          mem
          (some source)
          sourcelen
          (some dest)
          3
          true
        ≡ ok p)
      × (p.ret ≡ success)
      × (¬ Within (dest + 3) p.stores)
unfolding openusb_parse_data parse_loop parse_step load
parse_data_overrun mem source sourcelen dest even s h =
    let b0 = get_elem?-lt mem source (omega arith) in
    let b1 = get_elem?-lt mem (source + 1) (omega arith) in
    let b2 = get_elem?-lt mem (source + 1 + 1) (omega arith) in
    (
      record {
        ret = success;
        stores =
            record { at = dest; value = num 1 b0.0 }
            ∷ record { at = align_word (dest + 1); value = num 2 (b2.0 * 256 + b1.0) }
            ∷ [];
        count = some 3;
      },
      ground arith,
      refl,
      λ w. omega arith,
    )

-- With the format ".b" and a `sourcelen` of zero the length wraps, and the call reads the byte
-- behind the skipped one, though the caller has granted none.
pub parse_data_dot_underflow :
    (mem : List ℕ) (source dest : ℕ)
    → source + 1 < length mem
    → (p : Parsed) × (openusb_parse_data (some (codes ".b")) mem (some source) 0 (some dest) 1 true
        ≡ ok p)
      × (p.ret ≡ success)
      × (p.count ≡ some 2)
unfolding openusb_parse_data parse_loop parse_step load
parse_data_dot_underflow mem source dest h =
    let b = get_elem?-lt mem (source + 1) h in
    (
      record {
        ret = success;
        stores = record { at = dest; value = num 1 b.0 } ∷ [];
        count = some 2;
      },
      ground arith,
      refl,
      refl,
    )
