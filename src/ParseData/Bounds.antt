-- ===== src/ParseData/Bounds.antt =====
-- Where `openusb_parse_data` stores. `destlen` is decremented by the sizes of the fields, and not by
-- the bytes that alignment skips, so the stores may pass the end of the destination by those.
use libopenusb.Prelude.{
  ◌==◌, if◌then◌else◌, ==_iff, Bool-cases, length, ℕ, ◌+◌, ◌*◌, ◌^◌, ◌≤◌, ◌≡◌, refl, ◌⊎◌, inl, inr,
  true, false, ◌||◌, some, List, [], ◌∷◌, ◌++◌, arith,
}
use libopenusb.Run.{Run, ok, fault, no_fuel, ◌>>=◌, load}
use libopenusb.ParseData.{
  Stored, num, raw, Store, Cursor, Next, go, stop, align_word, align_dword, short, store, take_byte,
  parse_step, parse_loop, Parsed, finish, openusb_parse_data,
}

-- The bytes that alignment may skip before a field.
abbrev pub slack : List ℕ → ℕ
slack [] = 0
slack (ch ∷ format) =
    (if ch == b'w' || ch == b'W' then 1 else if ch == b'd' || ch == b'D' then 2 else 0)
    + slack format

abbrev pub size : Stored → ℕ
size (num n v) = n
size (raw bs) = length bs

abbrev pub Within : ℕ → List Store → Type 0
Within bound [] = Unit
Within bound (s ∷ ss) = (s.at + size s.value ≤ bound) × Within bound ss

Within-append :
    (bound : ℕ) (xs ys : List Store) → Within bound xs → Within bound ys → Within bound (xs ++ ys)
Within-append bound [] ys hx hy = hy
Within-append bound (x ∷ xs) ys hx hy = (hx.0, Within-append bound xs ys hx.1 hy)

Within-le : {a b : ℕ} (xs : List Store) → Within a xs → a ≤ b → Within b xs
Within-le [] h le = tt
Within-le (x ∷ xs) h le = (omega arith, Within-le xs h.1 le)

-- All stores so far end at or before `dp`.
abbrev Bounded : ℕ → Run Next → Type 0
Bounded bound (ok (go c)) = (c.dp + c.destlen ≤ bound) × Within c.dp c.stores
Bounded bound (ok (stop c)) = Within bound c.stores
Bounded bound _ = Unit

-- Whatever is loaded, what is stored lies within the bound.
two-Bounded :
    (bound : ℕ) (m0 m1 : Run ℕ) (f : ℕ → ℕ → Next)
    → ((b0 b1 : ℕ) → Bounded bound (ok (f b0 b1)))
    → Bounded bound (do b0 ← m0; b1 ← m1; ok (f b0 b1))
two-Bounded bound (ok b0) (ok b1) f h = h b0 b1
two-Bounded bound (ok b0) fault f h = tt
two-Bounded bound (ok b0) no_fuel f h = tt
two-Bounded bound fault _ f h = tt
two-Bounded bound no_fuel _ f h = tt

four-Bounded :
    (bound : ℕ) (m0 m1 m2 m3 : Run ℕ) (f : ℕ → ℕ → ℕ → ℕ → Next)
    → ((b0 b1 b2 b3 : ℕ) → Bounded bound (ok (f b0 b1 b2 b3)))
    → Bounded bound (do b0 ← m0; b1 ← m1; b2 ← m2; b3 ← m3; ok (f b0 b1 b2 b3))
four-Bounded bound (ok b0) (ok b1) m2 m3 f h = two-Bounded bound m2 m3 (f b0 b1) (h b0 b1)
four-Bounded bound (ok b0) fault _ _ f h = tt
four-Bounded bound (ok b0) no_fuel _ _ f h = tt
four-Bounded bound fault _ _ _ f h = tt
four-Bounded bound no_fuel _ _ _ f h = tt

module _ (mem : List ℕ) (c : Cursor) (w : Within c.dp c.stores) where
  keep-Within : (pad : ℕ) → Within (c.dp + c.destlen + pad) c.stores
  keep-Within pad = Within-le c.stores w (omega arith)

  store-Bounded :
      (dp n pad : ℕ) (v : Stored)
      → short c n ≡ false
      → c.dp ≤ dp
      → dp ≤ c.dp + pad
      → size v ≡ n
      → Bounded (c.dp + c.destlen + pad) (ok (go (store c dp n v)))
  store-Bounded dp n pad v e lo hi sz = (
    ground arith,
    Within-append (dp + n) c.stores (record { at = dp; value = v } ∷ [])
        (Within-le c.stores w (omega arith)) (omega arith, tt),
  )

  byte-Bounded : Bounded (c.dp + c.destlen + 0) (take_byte mem c)
  unfolding take_byte
  byte-Bounded = elim (Bool-cases (short c 1)) [
    | inl e ↦ rw e (keep-Within 0)
    | inr e ↦ rw e (
        two-Bounded (c.dp + c.destlen + 0) (ok 0) (load mem c.sp)
          (λ _ b. go (store c c.dp 1 (num 1 b)))
          λ _ b. store-Bounded c.dp 1 0 (num 1 b) e (omega arith) (omega arith) refl)
  ]

  module _ (v : ℕ → ℕ → Stored) (sized : (b0 b1 : ℕ) → size (v b0 b1) ≡ 2) where
    word-Bounded : Bounded (c.dp + c.destlen + 1) (
        if short c 2 then ok (stop c) else do
          b0 ← load mem c.sp
          b1 ← load mem (c.sp + 1)
          ok (go (store c (align_word c.dp) 2 (v b0 b1))))
    word-Bounded = elim (Bool-cases (short c 2)) [
      | inl e ↦ rw e (keep-Within 1)
      | inr e ↦ rw e (
          two-Bounded (c.dp + c.destlen + 1) (load mem c.sp) (load mem (c.sp + 1))
            (λ b0 b1. go (store c (align_word c.dp) 2 (v b0 b1)))
            λ b0 b1.
              store-Bounded (align_word c.dp) 2 1 (v b0 b1) e (omega arith) (omega arith)
                (sized b0 b1))
    ]

  module _ (v : ℕ → ℕ → ℕ → ℕ → Stored) (sized : (b0 b1 b2 b3 : ℕ) → size (v b0 b1 b2 b3) ≡ 4) where
    dword-Bounded : Bounded (c.dp + c.destlen + 2) (
        if short c 4 then ok (stop c) else do
          b0 ← load mem c.sp
          b1 ← load mem (c.sp + 1)
          b2 ← load mem (c.sp + 2)
          b3 ← load mem (c.sp + 3)
          ok (go (store c (align_dword c.dp) 4 (v b0 b1 b2 b3))))
    dword-Bounded = elim (Bool-cases (short c 4)) [
      | inl e ↦ rw e (keep-Within 2)
      | inr e ↦ rw e (
          four-Bounded (c.dp + c.destlen + 2) (load mem c.sp) (load mem (c.sp + 1))
            (load mem (c.sp + 2)) (load mem (c.sp + 3))
            (λ b0 b1 b2 b3. go (store c (align_dword c.dp) 4 (v b0 b1 b2 b3)))
            λ b0 b1 b2 b3.
              store-Bounded (align_dword c.dp) 4 2 (v b0 b1 b2 b3) e (omega arith) (omega arith)
                (sized b0 b1 b2 b3))
    ]

-- A store that is written needs the stores that were there, a jump over the character does not.
step-Bounded :
    (mem : List ℕ) (c : Cursor) (ch : ℕ)
    → Within c.dp c.stores
    → Bounded (c.dp + c.destlen + slack (ch ∷ [])) (parse_step mem ch c)
unfolding parse_step
step-Bounded mem c ch w = elim (Bool-cases (ch == b'b')) [
  | inl e ↦ rw ((==_iff ch b'b').0 e) (byte-Bounded mem c w)
  | inr nb ↦ elim (Bool-cases (ch == b'w')) [
    | inl e ↦
        rw ((==_iff ch b'w').0 e)
          (word-Bounded mem c w (λ b0 b1. num 2 (b1 * 256 + b0)) (λ _ _. refl))
    | inr nw ↦ elim (Bool-cases (ch == b'W')) [
      | inl e ↦
          rw ((==_iff ch b'W').0 e)
            (word-Bounded mem c w (λ b0 b1. raw (b0 ∷ b1 ∷ [])) (λ _ _. refl))
      | inr nW ↦ elim (Bool-cases (ch == b'd')) [
        | inl e ↦ rw ((==_iff ch b'd').0 e) (
            dword-Bounded mem c w
              (λ b0 b1 b2 b3. num 4 (b3 * 2 ^ 24 + b2 * 2 ^ 16 + b1 * 2 ^ 8 + b0))
              (λ _ _ _ _. refl))
        | inr nd ↦ elim (Bool-cases (ch == b'D')) [
          | inl e ↦ rw ((==_iff ch b'D').0 e) (
              dword-Bounded mem c w (λ b0 b1 b2 b3. raw (b0 ∷ b1 ∷ b2 ∷ b3 ∷ [])) (λ _ _ _ _. refl))
          | inr nD ↦ ground arith
        ]
      ]
    ]
  ]
]

Bounded-le : (a b : ℕ) (r : Run Next) → Bounded a r → a ≤ b → Bounded b r
Bounded-le a b (ok (go c')) h le = (omega arith, h.1)
Bounded-le a b (ok (stop c')) h le = Within-le c'.stores h le
Bounded-le a b fault h le = tt
Bounded-le a b no_fuel h le = tt

Next-cases :
    (r : Run Next)
    → ((c : Cursor) × (r ≡ ok (go c)))
      ⊎ ((c : Cursor) × (r ≡ ok (stop c)))
      ⊎ (r ≡ fault)
      ⊎ (r ≡ no_fuel)
Next-cases (ok (go c)) = inl (c, refl)
Next-cases (ok (stop c)) = inr (inl (c, refl))
Next-cases fault = inr (inr (inl refl))
Next-cases no_fuel = inr (inr (inr refl))

parse_loop-Bounded :
    (mem format : List ℕ) (c : Cursor)
    → Within c.dp c.stores
    → Bounded (c.dp + c.destlen + slack format) (parse_loop mem format c)
unfolding parse_loop
parse_loop-Bounded mem [] c w = (omega arith, w)
parse_loop-Bounded mem (ch ∷ format) c w =
    let bound = c.dp + c.destlen + slack (ch ∷ format) in
    let here = step-Bounded mem c ch w in
    elim (Next-cases (parse_step mem ch c)) [
      | inl (c', e) ↦
          let now : Bounded (c.dp + c.destlen + slack (ch ∷ [])) (ok (go c')) = rw e at here in
          rw (e, parse_loop)
            (Bounded-le (c'.dp + c'.destlen + slack format) bound (parse_loop mem format c')
              (parse_loop-Bounded mem format c' now.1) (omega arith))
      | inr (inl (c', e)) ↦
          let now : Within (c.dp + c.destlen + slack (ch ∷ [])) c'.stores = rw e at here in
          rw (e, parse_loop) (Within-le c'.stores now (omega arith))
      | inr (inr (inl e)) ↦ rw (e, parse_loop) tt
      | inr (inr (inr e)) ↦ rw (e, parse_loop) tt
    ]

-- Whatever the format, the block and the lengths, every store of `openusb_parse_data` that returns
-- ends within `destlen` bytes of the destination and the bytes that alignment may skip.
pub parse_data_bounds :
    (mem format : List ℕ) (source sourcelen dest destlen : ℕ) (p : Parsed)
    → openusb_parse_data (some format) mem (some source) sourcelen (some dest) destlen true ≡ ok p
    → Within (dest + destlen + slack format) p.stores
unfolding openusb_parse_data
parse_data_bounds mem format source sourcelen dest destlen p h =
    let c : Cursor = record {
      sp = source;
      dp = dest;
      sourcelen = sourcelen;
      destlen = destlen;
      stores = [];
    } in
    let whole = parse_loop-Bounded mem format c tt in
    elim (Next-cases (parse_loop mem format c)) [
      | inl (c', e) ↦
          let now : Bounded (dest + destlen + slack format) (ok (go c')) = rw e at whole in
          let r : finish source (go c') ≡ p = ground arith in
          rw (← r) (Within-le c'.stores now.1 (omega arith))
      | inr (inl (c', e)) ↦
          let now : Within (dest + destlen + slack format) c'.stores = rw e at whole in
          let r : finish source (stop c') ≡ p = ground arith in rw (← r) now
      | inr (inr (inl e)) ↦ absurd (ground arith)
      | inr (inr (inr e)) ↦ absurd (ground arith)
    ]
