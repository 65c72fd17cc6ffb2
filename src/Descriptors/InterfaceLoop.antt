-- ===== src/Descriptors/InterfaceLoop.antt =====
-- The loop of `usbi_parse_interface` over the alternate settings of one interface.
use mathlib.Core.List.{append_assoc}
use libopenusb.Prelude.{
  ◌==◌, length, length-append, Holds, Holds-at, Holds-append, pos, ℕ, suc, ◌+◌, ◌-◌, ◌^◌, ◌≤◌, ◌<◌,
  ◌≡◌, refl, subst, ◌≢◌, ◌⊎◌, inl, inr, true, List, [], ◌∷◌, ◌++◌, map, arith,
}
use libopenusb.Codes.{type_interface}
use libopenusb.Run.{ok, load}
use libopenusb.ParseData.Layout.{encode}
use libopenusb.Descriptors.{Header, InterfaceDesc, Block, Env}
use libopenusb.Descriptors.Tree.{
  AltTree, encode_extras, interface_fields, encode_endpoints, encode_alt, encode_alts, All, AltOk,
  altsetting_of,
}
use libopenusb.Descriptors.Reading.{read_header-Holds}
use libopenusb.Descriptors.InterfaceParser.{IfcState, filled, alternate_follows, interface_loop}
use libopenusb.Descriptors.AltRoundTrip.{length-alt, altsetting_round-encode}
use libopenusb.Descriptors.EndpointsLoop.{Follows}

-- What ends an interface, `n` bytes before the end of the buffer: nothing, or the alternate setting
-- 0 of another interface.
abbrev pub IfcEnd : List ℕ → ℕ → ℕ → Type 0
IfcEnd mem p n =
    (n ≡ 0) ⊎ ((b i : ℕ) × Holds mem p (b ∷ type_interface ∷ i ∷ 0 ∷ []) × (2 ≤ b) × (b ≤ n))

pub IfcEnd-at : (mem : List ℕ) {p q n m : ℕ} → IfcEnd mem p n → p ≡ q → n ≡ m → IfcEnd mem q m
IfcEnd-at mem {p} {q} {n} {m} e pe ne =
    subst (λ x. IfcEnd mem x m) pe (subst (λ x. IfcEnd mem p x) ne e)

IfcEnd-Follows : (mem : List ℕ) (p n : ℕ) → IfcEnd mem p n → Follows mem p n
IfcEnd-Follows mem p n (inl e) = inl e
IfcEnd-Follows mem p n (inr (b, i, h, two, le)) =
    inr (b, type_interface, (h.0, (h.1.0, tt)), inl refl, two, le)

-- At the end of an interface the loop stops, or finds nothing to go on with.
follows-end :
    (mem : List ℕ) (s : IfcState)
    → IfcEnd mem s.buf s.buflen
    → (h : Header) × (alternate_follows mem s ≡ ok (record s { header = h }, s.buflen == 0))
unfolding alternate_follows load
follows-end mem s (inl e) = (s.header, ground arith)
follows-end mem s (inr (b, i, h, two, le)) = (
  record { b_length = b; b_descriptor_type = type_interface },
  ground (
    arith,
    read_header-Holds mem s.buf s.buflen b type_interface s.header (h.0, (h.1.0, tt)) (omega arith),
    Holds-at mem (0 ∷ []) (h.1.1.1.0, tt) add_three,
  ),
)
  where
    add_three : s.buf + 1 + 1 + 1 ≡ s.buf + 3
    add_three = omega arith

-- An alternate setting other than 0 that fits makes the loop go on.
follows-alternate :
    (mem : List ℕ) (s : IfcState) (d : InterfaceDesc)
    → d.b_length ≡ 9
    → d.b_descriptor_type ≡ type_interface
    → d.b_alternate_setting ≢ 0
    → Holds mem s.buf (encode (interface_fields d))
    → 9 ≤ s.buflen
    → (h : Header) × (alternate_follows mem s ≡ ok (record s { header = h }, true))
unfolding alternate_follows load
follows-alternate mem s d len kind alt h le = (
  record { b_length = d.b_length; b_descriptor_type = d.b_descriptor_type },
  ground (
    arith,
    read_header-Holds mem s.buf s.buflen d.b_length d.b_descriptor_type s.header (h.0, (h.1.0, tt))
        (omega arith),
    Holds-at mem (d.b_alternate_setting ∷ []) (h.1.1.1.0, tt) add_three,
  ),
)
  where
    add_three : s.buf + 1 + 1 + 1 ≡ s.buf + 3
    add_three = omega arith

-- The alternates behind the first have other numbers than 0.
abbrev pub Alternate : AltTree → Type 0
Alternate a = a.desc.b_alternate_setting ≢ 0

module _ (env : Env) (mem : List ℕ) (alloc : (b : Block) → env.alloc b ≡ true) (ifc : ℕ) where
  -- The loop builds the alternate settings in order, and stops at their end.
  pub interface_loop-encode :
      (a : AltTree) (alts : List AltTree) (fuel : ℕ) (s : IfcState)
      → All (AltOk ifc) (a ∷ alts)
      → All Alternate alts
      → Holds mem s.buf (encode_alts (a ∷ alts))
      → length (encode_alts (a ∷ alts)) ≤ s.buflen
      → s.buflen < 2 ^ 32
      → length s.done + length (a ∷ alts) ≤ s.cap
      → IfcEnd mem
          (s.buf + length (encode_alts (a ∷ alts)))
          (s.buflen - length (encode_alts (a ∷ alts)))
      → length (a ∷ alts) < fuel
      → interface_loop env mem fuel s
        ≡ ok (
          pos (s.parsed + length (encode_alts (a ∷ alts))),
          filled (s.done ++ map altsetting_of (a ∷ alts)),
        )
  unfolding interface_loop
  interface_loop-encode a [] (suc (suc fuel)) s v alt h le small room e f =
      let one = length (encode_alt a) in
      let both = length-append (encode_alt a) [] in
      let parts = Holds-append mem (encode_alt a) [] s.buf h in
      let ends : IfcEnd mem (s.buf + one) (s.buflen - one) =
        IfcEnd-at mem e (omega arith) (omega arith) in
      let round =
        altsetting_round-encode env mem alloc ifc a v.0 s parts.0 (omega arith) small (omega arith)
          (IfcEnd-Follows mem _ _ ends) ((s.buflen - one) == 0)
          (λ h'.
            follows-end mem
              (record s {
                buf = s.buf + one;
                buflen = s.buflen - one;
                parsed = s.parsed + one;
                header = h';
                done = s.done ++ (altsetting_of a ∷ []);
              })
              ends) in
      ground (arith, round.1, both, length-alt env mem alloc ifc a v.0)
  interface_loop-encode a (b ∷ alts) (suc fuel) s v alt h le small room e f =
      let one = length (encode_alt a) in
      let next_one = length (encode_alt b) in
      let rest = length (encode_alts (b ∷ alts)) in
      let both : length (encode_alts (a ∷ b ∷ alts)) ≡ one + rest =
        length-append (encode_alt a) (encode_alts (b ∷ alts)) in
      let rest_both : rest ≡ next_one + length (encode_alts alts) =
        length-append (encode_alt b) (encode_alts alts) in
      let size_a = length-alt env mem alloc ifc a v.0 in
      let size_b = length-alt env mem alloc ifc b v.1.0 in
      let parts = Holds-append mem (encode_alt a) (encode_alts (b ∷ alts)) s.buf h in
      let d = b.desc in
      let here = Holds-append mem (encode_alt b) (encode_alts alts) (s.buf + one) parts.1 in
      let fields =
        Holds-append mem (encode (interface_fields d))
          (encode_extras b.extras ++ encode_endpoints b.endpoints) (s.buf + one) here.0 in
      let moved_on : Header → IfcState = λ h'. record s {
        buf = s.buf + one;
        buflen = s.buflen - one;
        parsed = s.parsed + one;
        header = h';
        done = s.done ++ (altsetting_of a ∷ []);
      } in
      let round =
        altsetting_round-encode env mem alloc ifc a v.0 s parts.0 (omega arith) small (omega arith)
          (inr (
            d.b_length,
            d.b_descriptor_type,
            (fields.0.0, (fields.0.1.0, tt)),
            inl v.1.0.kind,
            omega (arith, v.1.0.size),
            omega (arith, v.1.0.size),
          ))
          true
          (λ h'.
            follows-alternate mem (moved_on h') d v.1.0.size v.1.0.kind alt.0 fields.0
              (omega arith)) in
      let ih =
        interface_loop-encode b alts fuel (moved_on round.0) v.1 alt.1 parts.1 (omega arith)
          (omega arith) (omega (arith, length-append s.done (altsetting_of a ∷ [])))
          (IfcEnd-at mem e (omega arith) (omega arith)) (omega arith) in
      ground (
        arith,
        round.1,
        ih,
        both,
        size_a,
        append_assoc s.done (altsetting_of a ∷ []) (map altsetting_of (b ∷ alts)),
      )
  interface_loop-encode a alts fuel s v alt h le small room e f = absurd (omega arith)
