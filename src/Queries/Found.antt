-- ===== src/Queries/Found.antt =====
-- `openusb_parse_interface_desc` finds the setting asked for behind others, and reads it.
use libopenusb.Prelude.{
  Bool-cases, subst, ◌==◌, true, ℤ, lt→ltb, length, length-append, Holds, Holds-at, Holds-append, ℕ,
  suc, ◌+◌, ◌-◌, ◌≤◌, ◌<◌, ◌≡◌, refl, ◌≢◌, ◌⊎◌, inl, inr, false, List, [], ◌∷◌, ◌++◌, arith, some,
  ge→ltb,
}
use libopenusb.Codes.{success, type_interface}
use libopenusb.Run.{ok, load}
use libopenusb.Descriptors.{InterfaceDesc}
use libopenusb.ParseData.Layout.{encode, layout, parse_data-encode}
use libopenusb.Descriptors.Tree.{interface_fields, ExtraDesc, encode_extra, encode_extras, All}
use libopenusb.Queries.{
  openusb_parse_interface_desc, query_buffer, checked_ret, onward, advance, is_setting,
  find_setting,
}

-- A descriptor that the walk passes over: of another type, or another setting.
abbrev pub OtherSetting : ℕ → ℕ → ExtraDesc → Type 0
OtherSetting ifc alt x =
    (x.kind ≢ type_interface)
    ⊎ ((i a : ℕ) × (rest : List ℕ) × (x.payload ≡ i ∷ a ∷ rest) × ((i ≢ ifc) ⊎ (a ≢ alt)))

module _ (mem : List ℕ) (ifc alt : ℕ) where
  other-payload :
      (sp i a : ℕ) (rest : List ℕ)
      → Holds mem sp (encode_extra (record { kind = type_interface; payload = i ∷ a ∷ rest }))
      → (i ≢ ifc) ⊎ (a ≢ alt)
      → is_setting mem ifc alt sp ≡ ok false
  unfolding is_setting load
  other-payload sp i a rest h ne = ground (
    arith,
    Holds-at mem (i ∷ []) {p = sp + 1 + 1} {q = sp + 2} (h.1.1.0, tt) (omega arith),
    Holds-at mem (a ∷ []) {p = sp + 1 + 1 + 1} {q = sp + 3} (h.1.1.1.0, tt) (omega arith),
  )

  other-type :
      (sp : ℕ) (x : ExtraDesc)
      → Holds mem sp (encode_extra x)
      → x.kind ≢ type_interface
      → is_setting mem ifc alt sp ≡ ok false
  unfolding is_setting load
  other-type sp x h ne = ground (arith, h.1.0)

  other-is_setting :
      (sp k : ℕ) (payload : List ℕ)
      → Holds mem sp (encode_extra (record { kind = k; payload = payload }))
      → OtherSetting ifc alt (record { kind = k; payload = payload })
      → is_setting mem ifc alt sp ≡ ok false
  other-is_setting sp k payload h (inl ne) =
      other-type sp (record { kind = k; payload = payload }) h ne
  other-is_setting sp k payload h (inr (i, a, rest, e, ne)) =
      elim (Bool-cases (k == type_interface)) [
        | inl y ↦
            let kind : k ≡ type_interface = ground arith in
            other-payload sp i a rest
              (subst (λ x. Holds mem sp (encode_extra x))
                {x = record { kind = k; payload = payload }}
                {y = record { kind = type_interface; payload = i ∷ a ∷ rest }} (cc (kind, e)) h)
              ne
        | inr n ↦ other-type sp (record { kind = k; payload = payload }) h (ground arith)
      ]

  advance-Holds :
      (sp len : ℕ) (x : ExtraDesc)
      → Holds mem sp (encode_extra x)
      → length (encode_extra x) ≤ len
      → advance mem sp len
        ≡ ok (onward (sp + length (encode_extra x)) (len - length (encode_extra x)))
  unfolding advance load
  advance-Holds sp len x h le = ground (arith, h.0)

  module _ (least : ℕ) where
    pass-one :
        (fuel sp len : ℕ) (x : ExtraDesc)
        → Holds mem sp (encode_extra x)
        → OtherSetting ifc alt x
        → length (encode_extra x) ≤ len
        → least < len
        → find_setting mem ifc alt least (suc fuel) sp len
          ≡ find_setting mem ifc alt least fuel
              (sp + length (encode_extra x))
              (len - length (encode_extra x))
    unfolding find_setting
    pass-one fuel sp len x h o le lt =
        rw
          (
            lt→ltb least len lt,
            other-is_setting sp x.kind x.payload h o,
            advance-Holds sp len x h le,
            find_setting,
          )
          refl

    -- The walk passes over the descriptors before the setting.
    find_setting-pass :
        (xs : List ExtraDesc) (fuel sp len : ℕ)
        → Holds mem sp (encode_extras xs)
        → All (OtherSetting ifc alt) xs
        → length (encode_extras xs) + least < len
        → find_setting mem ifc alt least (length xs + suc fuel) sp len
          ≡ find_setting mem ifc alt least
              (suc fuel)
              (sp + length (encode_extras xs))
              (len - length (encode_extras xs))
    find_setting-pass [] fuel sp len h o lt = ground arith
    find_setting-pass (x ∷ xs) fuel sp len h o lt =
        let parts = Holds-append mem (encode_extra x) (encode_extras xs) sp h in
        let both : length (encode_extra x ++ encode_extras xs)
            ≡ length (encode_extra x) + length (encode_extras xs) =
          length-append (encode_extra x) (encode_extras xs) in
        let first =
          pass-one (length xs + suc fuel) sp len x parts.0 o.0 (omega arith) (omega arith) in
        let ih =
          find_setting-pass xs fuel (sp + length (encode_extra x)) (len - length (encode_extra x))
            parts.1 o.1 (omega arith) in
        ground (arith, first, ih, both)

count-le : (xs : List ExtraDesc) → length xs ≤ length (encode_extras xs)
count-le [] = omega arith
count-le (x ∷ xs) = omega (arith, count-le xs, length-append (encode_extra x) (encode_extras xs))

module _ (mem : List ℕ) (ifc alt : ℕ) (d : InterfaceDesc)
    (kind : d.b_descriptor_type ≡ type_interface) (number : d.b_interface_number ≡ ifc)
    (setting : d.b_alternate_setting ≡ alt) where
  is_setting-Holds :
      (sp : ℕ) → Holds mem sp (encode (interface_fields d)) → is_setting mem ifc alt sp ≡ ok true
  unfolding is_setting load
  is_setting-Holds sp h = ground (
    arith,
    h.1.0,
    kind,
    number,
    setting,
    Holds-at mem (d.b_interface_number ∷ []) {p = sp + 1 + 1} {q = sp + 2} (h.1.1.0, tt)
        (omega arith),
    Holds-at mem (d.b_alternate_setting ∷ []) {p = sp + 1 + 1 + 1} {q = sp + 3} (h.1.1.1.0, tt)
        (omega arith),
  )

  found_here :
      (least fuel sp len : ℕ)
      → Holds mem sp (encode (interface_fields d))
      → least < len
      → find_setting mem ifc alt least (suc fuel) sp len ≡ ok (some (sp, len))
  unfolding find_setting
  found_here least fuel sp len h lt =
      rw (lt→ltb least len lt, is_setting-Holds sp h, find_setting) refl

  -- Behind the descriptors `xs`, with the fuel that the queries give.
  pub find_setting-encode :
      (xs : List ExtraDesc) (least buflen : ℕ)
      → All (OtherSetting ifc alt) xs
      → Holds mem 0 (encode_extras xs ++ encode (interface_fields d))
      → length (encode_extras xs) + least < buflen
      → find_setting mem ifc alt least (suc buflen) 0 buflen
        ≡ ok (some (length (encode_extras xs), buflen - length (encode_extras xs)))
  find_setting-encode xs least buflen o h le =
      let sp = length (encode_extras xs) in
      let fields = encode (interface_fields d) in
      let parts = Holds-append mem (encode_extras xs) fields 0 h in
      let here = Holds-at mem fields {p = 0 + sp} {q = sp} parts.1 (omega arith) in
      let pass =
        find_setting-pass mem ifc alt least xs (buflen - length xs) 0 buflen parts.0 o le in
      let found = found_here least (buflen - length xs) sp (buflen - sp) here (omega arith) in
      ground (arith, pass, found, count-le xs)

-- `openusb_parse_interface_desc` finds a setting: where the buffer begins with descriptors of other
-- types or other settings and then holds the 9 bytes of that setting's descriptor, and the handle is
-- known, it returns success and has stored every member of the descriptor, and nothing else.
pub parse_interface_desc-encode :
    (mem : List ℕ) (buflen ifc alt : ℕ) (answer : ℤ × List ℕ) (xs : List ExtraDesc)
    (d : InterfaceDesc)
    → All (OtherSetting ifc alt) xs
    → d.b_descriptor_type ≡ type_interface
    → d.b_interface_number ≡ ifc
    → d.b_alternate_setting ≡ alt
    → Holds mem 0 (encode_extras xs ++ encode (interface_fields d))
    → length (encode_extras xs) + 9 ≤ buflen
    → openusb_parse_interface_desc true (some (mem, buflen)) answer ifc alt
      ≡ ok (success, layout 0 (interface_fields d))
unfolding openusb_parse_interface_desc query_buffer checked_ret
parse_interface_desc-encode mem buflen ifc alt answer xs d o kind number setting h le =
    let sp = length (encode_extras xs) in
    let fields = encode (interface_fields d) in
    let parts = Holds-append mem (encode_extras xs) fields 0 h in
    let here = Holds-at mem fields {p = 0 + sp} {q = sp} parts.1 (omega arith) in
    let found =
      find_setting-encode mem ifc alt d kind number setting xs 3 buflen o h (omega arith) in
    let read =
      parse_data-encode mem (interface_fields d) sp (buflen - sp) 0 9 tt here (omega arith)
        (omega arith) in
    rw (ge→ltb buflen 9 (omega arith), found, read) refl
