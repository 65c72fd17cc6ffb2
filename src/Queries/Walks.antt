-- ===== src/Queries/Walks.antt =====
-- The walks end, read only the bytes of their buffer, and give a place in it of the kind asked for.
use libopenusb.Prelude.{
  ltb, ◌==◌, if◌then◌else◌, Bool-cases, length, get_elem?-lt, ℕ, zero, suc, ◌+◌, ◌-◌, ◌≤◌, ◌<◌, ◌≡◌,
  refl, ap, ◌∙◌, ◌⊎◌, inl, inr, Bool, true, not, ◌&&◌, ◌||◌, Option, none, some, List, arith,
}
use libopenusb.Codes.{type_interface}
use libopenusb.Run.{ok, load}
use libopenusb.Queries.{ended, onward, advance, is_setting, find_setting, nth_loop, usbi_nth_desc}

byte-some : (mem : List ℕ) (p : ℕ) → p < length mem → (b : ℕ) × (load mem p ≡ ok b)
unfolding load
byte-some mem p h = let r = get_elem?-lt mem p h in (r.0, ground (arith, r.1))

pub advance-cases :
    (mem : List ℕ) (sp len : ℕ)
    → sp < length mem
    → (advance mem sp len ≡ ok ended)
      ⊎ ((b : ℕ) × (0 < b) × (b ≤ len) × (advance mem sp len ≡ ok (onward (sp + b) (len - b))))
unfolding advance
advance-cases mem sp len h =
    let r = byte-some mem sp h in
    elim (Bool-cases (r.0 == 0 || ltb len r.0)) [
      | inl e ↦ inl (rw (r.1, e) refl)
      | inr e ↦ inr (r.0, ground arith, ground arith, rw (r.1, e) refl)
    ]

is_setting-total :
    (mem : List ℕ) (ifc alt sp : ℕ)
    → sp + 3 < length mem
    → (b : Bool) × (is_setting mem ifc alt sp ≡ ok b)
unfolding is_setting
is_setting-total mem ifc alt sp h =
    let t = byte-some mem (sp + 1) (omega arith) in
    let i = byte-some mem (sp + 2) (omega arith) in
    let a = byte-some mem (sp + 3) (omega arith) in
    (t.0 == type_interface && (i.0 == ifc && a.0 == alt), ground (arith, t.1, i.1, a.1))

-- The place of a setting in the `len` bytes from `sp` on, with more than `least` bytes left there.
abbrev pub SettingIn : List ℕ → ℕ → ℕ → ℕ → ℕ → ℕ → Option (ℕ × ℕ) → Type 0
SettingIn mem ifc alt least sp len none = Unit
SettingIn mem ifc alt least sp len (some (p, l)) =
    (sp ≤ p) × (p + l ≡ sp + len) × (least < l) × (is_setting mem ifc alt p ≡ ok true)

module _ (mem : List ℕ) (ifc alt least : ℕ) (room : 3 ≤ least) where
  SettingIn-onward :
      (sp len b : ℕ) (r : Option (ℕ × ℕ))
      → b ≤ len
      → SettingIn mem ifc alt least (sp + b) (len - b) r
      → SettingIn mem ifc alt least sp len r
  SettingIn-onward sp len b none le h = tt
  SettingIn-onward sp len b (some (p, l)) le h = (omega arith, omega arith, h.2, h.3)

  -- With a least of 3 or more, more fuel than bytes and a block that holds the `len` bytes from `sp`
  -- on, the walk for a setting ends without a read outside the block; what it finds lies in those
  -- bytes, has more than the least of them left, and is that setting.
  pub find_setting_total :
      (fuel sp len : ℕ)
      → len < fuel
      → sp + len ≤ length mem
      → (r : Option (ℕ × ℕ)) × (find_setting mem ifc alt least fuel sp len ≡ ok r)
        × SettingIn mem ifc alt least sp len r
  unfolding find_setting
  find_setting_total zero sp len f h = absurd (omega arith)
  find_setting_total (suc fuel) sp len f h = elim (Bool-cases (ltb least len)) [
    | inr e ↦ (none, rw (e, find_setting) refl, tt)
    | inl e ↦
        let s = is_setting-total mem ifc alt sp (ground arith) in
        elim (Bool-cases s.0) [
          | inl y ↦ (
            some (sp, len),
            rw (e, s.1, y, find_setting) refl,
            (omega arith, refl, ground arith, rw (s.1, y) refl),
          )
          | inr n ↦ elim (advance-cases mem sp len (ground arith)) [
            | inl a ↦ (none, rw (e, s.1, n, a, find_setting) refl, tt)
            | inr (b, pos_b, le, a) ↦
                let ih = find_setting_total fuel (sp + b) (len - b) (omega arith) (omega arith) in
                (ih.0, rw (e, s.1, n, a, find_setting) ih.1, SettingIn-onward sp len b ih.0 le ih.2)
          ]
        ]
  ]

-- The place of a descriptor of the type, with its header inside the `len` bytes from `sp` on.
abbrev pub DescIn : List ℕ → ℕ → ℕ → ℕ → Option ℕ → Type 0
DescIn mem type sp len none = Unit
DescIn mem type sp len (some p) = (sp ≤ p) × (p + 2 ≤ sp + len) × (load mem (p + 1) ≡ ok type)

module _ (mem : List ℕ) (buffer type stop_type : ℕ) where
  DescIn-onward :
      (sp len b : ℕ) (r : Option ℕ)
      → b ≤ len
      → DescIn mem type (sp + b) (len - b) r
      → DescIn mem type sp len r
  DescIn-onward sp len b none le h = tt
  DescIn-onward sp len b (some p) le h = (omega arith, omega arith, h.2)

  nth_loop_total :
      (fuel sp len n : ℕ)
      → len < fuel
      → sp + len ≤ length mem
      → (r : Option ℕ) × (nth_loop mem buffer type stop_type fuel sp len n ≡ ok r)
        × DescIn mem type sp len r
  unfolding nth_loop
  nth_loop_total zero sp len n f h = absurd (omega arith)
  nth_loop_total (suc fuel) sp len n f h = elim (Bool-cases (ltb len 2)) [
    | inl e ↦ (none, rw (e, nth_loop) refl, tt)
    | inr e ↦
        let t = byte-some mem (sp + 1) (ground arith) in
        elim (Bool-cases (not (sp == buffer) && t.0 == stop_type)) [
          | inl y ↦ (none, rw (e, t.1, y, nth_loop) refl, tt)
          | inr k ↦ elim (Bool-cases (t.0 == type && n == 0)) [
            | inl y ↦ (
              some sp,
              rw (e, t.1, k, y, nth_loop) refl,
              (omega arith, ground arith, t.1 ∙ ap ok (ground arith)),
            )
            | inr m ↦ elim (advance-cases mem sp len (ground arith)) [
              | inl a ↦ (none, rw (e, t.1, k, m, a, nth_loop) refl, tt)
              | inr (b, pos_b, le, a) ↦
                  let ih =
                    nth_loop_total fuel (sp + b) (len - b) (if t.0 == type then n - 1 else n)
                      (omega arith) (omega arith) in
                  (ih.0, rw (e, t.1, k, m, a, nth_loop) ih.1, DescIn-onward sp len b ih.0 le ih.2)
            ]
          ]
        ]
  ]

-- On a block that holds the `buflen` bytes of its buffer, whatever they are, `usbi_nth_desc` ends
-- without a read outside the block; a descriptor that it finds has its header in the buffer, and is
-- of the type asked for.
pub nth_desc_total :
    (mem : List ℕ) (buffer buflen type n stop_type : ℕ)
    → buffer + buflen ≤ length mem
    → (r : Option ℕ) × (usbi_nth_desc mem buffer buflen type n stop_type ≡ ok r)
      × DescIn mem type buffer buflen r
unfolding usbi_nth_desc
nth_desc_total mem buffer buflen type n stop_type h =
    nth_loop_total mem buffer type stop_type (suc buflen) buffer buflen n (omega arith) h
