-- ===== src/Tests/Parsing.antt =====
-- `openusb_parse_data` on small formats.
use libopenusb.Prelude.{codes, Holds-mid, ℕ, ◌≡◌, refl, true, none, some, List, [], ◌∷◌, arith}
use libopenusb.Codes.{success, no_resources}
use libopenusb.Run.{ok, load}
use libopenusb.ParseData.{num, parse_step, parse_loop, Parsed, openusb_parse_data}
use libopenusb.ParseData.Layout.{Field, byte, word, dword, format_of, encode}
use libopenusb.ParseData.Alignment.{round_up, structure, EvenDwords, parse_data-structure}
use libopenusb.ParseData.Prefixes.{without_numbers, parse_data-without_numbers}
use libopenusb.ParseData.Total.{parse_data_total}
use libopenusb.ParseData.Bounds.{Within, parse_data_bounds}
use libopenusb.ParseData.Overruns.{parse_data_overrun, parse_data_dot_underflow}

abbrev fields : List Field
fields = byte 9 ∷ word 513 ∷ dword 70000 ∷ []

abbrev block : List ℕ
block = 7 ∷ 9 ∷ 1 ∷ 2 ∷ 112 ∷ 17 ∷ 1 ∷ 0 ∷ []

-- The stores keep the value, and alignment moves the word to 2.
stored :
    openusb_parse_data (some (codes "bwd")) block (some 1) 7 (some 0) 8 true
    ≡ ok (record {
      ret = success;
      stores =
          record { at = 0; value = num 1 9 }
          ∷ record { at = 2; value = num 2 513 }
          ∷ record { at = 4; value = num 4 70000 }
          ∷ [];
      count = some 7;
    })
unfolding openusb_parse_data parse_loop parse_step load
stored = refl

dword_is_even : EvenDwords 0 fields
unfolding EvenDwords round_up
dword_is_even = (refl, tt)

parse_data-structure_example :
    openusb_parse_data (some (format_of fields)) block (some 1) 7 (some 0) 8 true
    ≡ ok (record { ret = success; stores = structure 0 fields; count = some 7 })
parse_data-structure_example =
    parse_data-structure block fields 1 7 0 8 (omega arith, (omega arith, tt)) dword_is_even
      (Holds-mid (7 ∷ []) (encode fields) []) (omega arith) (omega arith)

-- The structure of openusb.h.in: the dword `d` is stored at 5, and its boundary is 8.
abbrev documented : List Field
documented = byte 1 ∷ word 2 ∷ byte 3 ∷ dword 4 ∷ []

documented_run :
    openusb_parse_data (some (codes "bwbd")) (encode documented) (some 0) 8 (some 0) 12 true
    ≡ ok (record {
      ret = success;
      stores =
          record { at = 0; value = num 1 1 }
          ∷ record { at = 2; value = num 2 2 }
          ∷ record { at = 4; value = num 1 3 }
          ∷ record { at = 5; value = num 4 4 }
          ∷ [];
      count = some 8;
    })
unfolding openusb_parse_data parse_loop parse_step load
documented_run = refl

padded_run :
    structure 0 documented
    ≡ record { at = 0; value = num 1 1 }
      ∷ record { at = 2; value = num 2 2 }
      ∷ record { at = 4; value = num 1 3 }
      ∷ record { at = 8; value = num 4 4 }
      ∷ []
unfolding structure round_up
padded_run = refl

parse_data_total_example :
    (p : Parsed) × (openusb_parse_data (some (codes "bwD")) block (some 0) 6 (some 0) 8 true ≡ ok p)
    × (p.ret ≡ no_resources)
    × (p.count ≡ none)
parse_data_total_example =
    parse_data_total block (codes "bwD") 0 6 0 8 (refl, (refl, (refl, tt))) (omega arith)

-- The format of openusb.h.in is read as one byte, one dword and one word.
prefixed_numbers : without_numbers (codes "2b4dw") ≡ codes "bdw"
unfolding without_numbers
prefixed_numbers = refl

parse_data-without_numbers_example :
    openusb_parse_data (some (codes "2b4dw")) block (some 0) 8 (some 0) 20 true
    ≡ openusb_parse_data (some (without_numbers (codes "2b4dw"))) block (some 0) 8 (some 0) 20 true
parse_data-without_numbers_example =
    parse_data-without_numbers (codes "2b4dw") block (some 0) 8 (some 0) 20 true

parse_data_bounds_example : Within 11 (
    record { at = 0; value = num 1 9 }
    ∷ record { at = 2; value = num 2 513 }
    ∷ record { at = 4; value = num 4 70000 }
    ∷ [])
parse_data_bounds_example =
    parse_data_bounds block (codes "bwd") 1 7 0 8
      (record {
        ret = success;
        stores =
            record { at = 0; value = num 1 9 }
            ∷ record { at = 2; value = num 2 513 }
            ∷ record { at = 4; value = num 4 70000 }
            ∷ [];
        count = some 7;
      })
      stored

parse_data_overrun_example :
    (p : Parsed) × (openusb_parse_data (some (codes "bw")) block (some 0) 3 (some 0) 3 true ≡ ok p)
    × (p.ret ≡ success)
    × (¬ Within 3 p.stores)
parse_data_overrun_example = parse_data_overrun block 0 3 0 refl (omega arith) (omega arith)

dot_underflow_read :
    (p : Parsed) × (openusb_parse_data (some (codes ".b")) block (some 0) 0 (some 0) 1 true ≡ ok p)
    × (p.ret ≡ success)
    × (p.count ≡ some 2)
dot_underflow_read = parse_data_dot_underflow block 0 0 (omega arith)
