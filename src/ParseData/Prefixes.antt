-- ===== src/ParseData/Prefixes.antt =====
-- The number prefixes of a format, which openusb/src/openusb.h.in describes and `openusb_parse_data` of
-- openusb/src/descriptors.c passes over.
use libopenusb.Prelude.{
  leb, if◌then◌else◌, Bool-cases, ℕ, ◌≡◌, refl, ◌∙◌, ◌⊎◌, inl, inr, Bool, true, false, ◌&&◌, Option,
  none, some, List, [], ◌∷◌, arith,
}
use libopenusb.Run.{Run, ok, fault, no_fuel}
use libopenusb.ParseData.{Cursor, Next, go, stop, parse_step, parse_loop, openusb_parse_data}

abbrev pub is_digit : ℕ → Bool
is_digit ch = leb 48 ch && leb ch 57

-- The format without its numbers
unfoldable pub without_numbers : List ℕ → List ℕ
without_numbers [] = []
without_numbers (ch ∷ format) =
    let rest = without_numbers format in if is_digit ch then rest else ch ∷ rest

parse_step-digit :
    (mem : List ℕ) (ch : ℕ) (c : Cursor) → is_digit ch ≡ true → parse_step mem ch c ≡ ok (go c)
unfolding parse_step
parse_step-digit mem ch c d = ground (arith, d)

Next-cases :
    (r : Run Next)
    → ((c : Cursor) × (r ≡ ok (go c)))
      ⊎ ((c : Cursor) × (r ≡ ok (stop c)))
      ⊎ (r ≡ fault)
      ⊎ (r ≡ no_fuel)
Next-cases (ok (go c)) = inl (c, refl)
Next-cases (ok (stop c)) = inr (inl (c, refl))
Next-cases fault = inr (inr (inl refl))
Next-cases no_fuel = inr (inr (inr refl))

-- The loop takes the same course over two formats behind the same character.
parse_loop-cons :
    (mem format other : List ℕ) (ch : ℕ) (c : Cursor)
    → ((c' : Cursor) → parse_loop mem format c' ≡ parse_loop mem other c')
    → parse_loop mem (ch ∷ format) c ≡ parse_loop mem (ch ∷ other) c
unfolding parse_loop
parse_loop-cons mem format other ch c same = elim (Next-cases (parse_step mem ch c)) [
  | inl (c', e) ↦ rw (e, parse_loop) (same c')
  | inr (inl (c', e)) ↦ rw (e, parse_loop) refl
  | inr (inr (inl e)) ↦ rw (e, parse_loop) refl
  | inr (inr (inr e)) ↦ rw (e, parse_loop) refl
]

parse_loop-without_numbers :
    (mem format : List ℕ) (c : Cursor)
    → parse_loop mem format c ≡ parse_loop mem (without_numbers format) c
unfolding without_numbers parse_loop
parse_loop-without_numbers mem [] c = refl
parse_loop-without_numbers mem (ch ∷ format) c = elim (Bool-cases (is_digit ch)) [
  | inl d ↦
      let step : parse_loop mem (ch ∷ format) c ≡ parse_loop mem format c =
        rw (parse_step-digit mem ch c d, parse_loop) refl in
      step ∙ rw d (parse_loop-without_numbers mem format c)
  | inr n ↦ rw n (
      parse_loop-cons mem format (without_numbers format) ch c
        (λ c'. parse_loop-without_numbers mem format c'))
]

-- Numbers in a format count for nothing: `openusb_parse_data` does with it what it does with the format
-- without its digits, whatever the block, the lengths and the pointers are.
pub parse_data-without_numbers :
    (format mem : List ℕ) (source : Option ℕ) (sourcelen : ℕ) (dest : Option ℕ) (destlen : ℕ)
    (counts : Bool)
    → openusb_parse_data (some format) mem source sourcelen dest destlen counts
      ≡ openusb_parse_data (some (without_numbers format)) mem source sourcelen dest destlen counts
unfolding openusb_parse_data
parse_data-without_numbers format mem none sourcelen dest destlen counts = refl
parse_data-without_numbers format mem (some source) sourcelen none destlen counts = refl
parse_data-without_numbers format mem (some source) sourcelen (some dest) destlen false = refl
parse_data-without_numbers format mem (some source) sourcelen (some dest) destlen true =
    rw
      (parse_loop-without_numbers mem format
        (record { sp = source; dp = dest; sourcelen = sourcelen; destlen = destlen; stores = [] }))
      refl
