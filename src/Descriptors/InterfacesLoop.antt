-- ===== src/Descriptors/InterfacesLoop.antt =====
-- The loop of `usbi_parse_configuration` over the interfaces.
use libopenusb.Prelude.{
  length, get_elem?, length-append, Holds, Holds-append, pos, ℕ, ◌+◌, ◌^◌, ◌≤◌, ◌<◌, ◌≡◌, refl,
  subst, ◌≢◌, inl, inr, true, some, List, [], ◌∷◌, ◌++◌, map, append-nil, arith, append_assoc, ◌∙◌,
  ap,
}
use libopenusb.Codes.{type_interface}
use libopenusb.Run.{ok}
use libopenusb.Descriptors.{Interface, Config, Block, Env}
use libopenusb.Descriptors.Tree.{
  ExtraDesc, AltTree, encode_extras, encode_alt, encode_alts, encode_interfaces, All, AltOk,
  interface_of,
}
use libopenusb.Descriptors.ConfigParser.{zero_interface, with_interfaces, interfaces_loop}
use libopenusb.Descriptors.AltRoundTrip.{length-alt}
use libopenusb.Descriptors.InterfaceLoop.{IfcEnd, Alternate}
use libopenusb.Descriptors.AltCountLaws.{count_hits, ScanOk}
use libopenusb.Descriptors.Flatten.{
  raws_alts, encode_extras-append, encode_raws-alts, All-append, raws_alts-ScanOk,
  count_hits-append, count-alts,
}
use libopenusb.Descriptors.InterfaceRoundTrip.{parse_interface-encode}

-- An interface has an alternate setting 0 first, then others, all of one number.
abbrev pub IfcOk : List AltTree → Type 0
IfcOk [] = ⊥
IfcOk (a ∷ alts) =
    (a.desc.b_alternate_setting ≡ 0)
    × All (AltOk a.desc.b_interface_number) (a ∷ alts)
    × All Alternate alts

abbrev pub raws_interfaces : List (List AltTree) → List ExtraDesc
raws_interfaces [] = []
raws_interfaces (i ∷ is) = raws_alts i ++ raws_interfaces is

abbrev pub count_alts : List (List AltTree) → ℕ
count_alts [] = 0
count_alts (i ∷ is) = length i + count_alts is

encode_raws-interfaces :
    (is : List (List AltTree))
    → All IfcOk is
    → encode_extras (raws_interfaces is) ≡ encode_interfaces is
encode_raws-interfaces [] v = refl
encode_raws-interfaces ([] ∷ is) v = absurd v.0
encode_raws-interfaces ((a ∷ alts) ∷ is) v =
    encode_extras-append (raws_alts (a ∷ alts)) (raws_interfaces is)
    ∙ ap (λ l. l ++ encode_extras (raws_interfaces is))
        (encode_raws-alts a.desc.b_interface_number (a ∷ alts) v.0.1)
    ∙ ap (λ l. encode_alts (a ∷ alts) ++ l) (encode_raws-interfaces is v.1)

raws_interfaces-ScanOk : (is : List (List AltTree)) → All IfcOk is → All ScanOk (raws_interfaces is)
raws_interfaces-ScanOk [] v = tt
raws_interfaces-ScanOk ([] ∷ is) v = absurd v.0
raws_interfaces-ScanOk ((a ∷ alts) ∷ is) v =
    All-append ScanOk (raws_alts (a ∷ alts)) (raws_interfaces is)
      (raws_alts-ScanOk a.desc.b_interface_number (a ∷ alts) v.0.1) (raws_interfaces-ScanOk is v.1)

-- A number is counted once for each alternate setting at most.
count-interfaces :
    (fno : ℕ) (is : List (List AltTree))
    → All IfcOk is
    → count_hits fno (raws_interfaces is) ≤ count_alts is
count-interfaces fno [] v = omega arith
count-interfaces fno ([] ∷ is) v = absurd v.0
count-interfaces fno ((a ∷ alts) ∷ is) v = ground (
  arith,
  count_hits-append fno (raws_alts (a ∷ alts)) (raws_interfaces is),
  count-alts fno a.desc.b_interface_number (a ∷ alts) v.0.1,
  count-interfaces fno is v.1,
)

module _ (env : Env) (mem : List ℕ) (alloc : (b : Block) → env.alloc b ≡ true) where
  -- The first alternate setting of the next interface ends the one before it.
  pub next_ends :
      (is : List (List AltTree)) (p : ℕ)
      → All IfcOk is
      → Holds mem p (encode_interfaces is)
      → IfcEnd mem p (length (encode_interfaces is))
  next_ends [] p v h = inl refl
  next_ends ([] ∷ is) p v h = absurd v.0
  next_ends ((a ∷ alts) ∷ is) p v h =
      let d = a.desc in
      let behind = encode_alts alts in
      let size = length-append (encode_alts (a ∷ alts)) (encode_interfaces is) in
      let size_alts = length-append (encode_alt a) behind in
      let one = length-alt env mem alloc d.b_interface_number a v.0.1.0 in
      let alts_at = (Holds-append mem (encode_alts (a ∷ alts)) (encode_interfaces is) p h).0 in
      let bytes = (Holds-append mem (encode_alt a) behind p alts_at).0 in
      inr (
        9,
        d.b_interface_number,
        (
          ground (arith, bytes.0, v.0.1.0.size),
          (
            ground (arith, bytes.1.0, v.0.1.0.kind),
            (bytes.1.1.0, (ground (arith, bytes.1.1.1.0, v.0.0), tt)),
          ),
        ),
        omega arith,
        omega arith,
      )

  -- The loop builds the interfaces in order, and leaves no byte.
  pub interfaces_loop-encode :
      (fuel : ℕ) (cfg : Config) (is : List (List AltTree)) (buf buflen t : ℕ) (ifs : List Interface)
      → All IfcOk is
      → Holds mem buf (encode_interfaces is)
      → length (encode_interfaces is) ≡ buflen
      → buflen < 2 ^ 31
      → get_elem? mem (buf + buflen + 1) ≡ some t
      → t ≢ type_interface
      → count_alts is < 256
      → length (raws_interfaces is) < fuel
      → interfaces_loop env mem fuel cfg (length is) buf buflen ifs
        ≡ ok (pos 0, with_interfaces cfg (ifs ++ map interface_of is))
  unfolding interfaces_loop
  interfaces_loop-encode fuel cfg [] buf buflen t ifs v h e small b ne few f =
      ground (arith, append-nil ifs)
  interfaces_loop-encode fuel cfg ([] ∷ is) buf buflen t ifs v h e small b ne few f = absurd v.0
  interfaces_loop-encode fuel cfg ((a ∷ alts) ∷ is) buf buflen t ifs v h e small b ne few f =
      let here = encode_alts (a ∷ alts) in
      let size : length (encode_interfaces ((a ∷ alts) ∷ is))
          ≡ length here + length (encode_interfaces is) =
        length-append here (encode_interfaces is) in
      let raws = encode_raws-interfaces is v.1 in
      let parts = Holds-append mem here (encode_interfaces is) buf h in
      let first = length-alt env mem alloc a.desc.b_interface_number a v.0.1.0 in
      let firsts = length-append (encode_alt a) (encode_alts alts) in
      let ends = next_ends is (buf + length here) v.1 parts.1 in
      let count = count-interfaces a.desc.b_interface_number is v.1 in
      let fuels = length-append (raws_alts (a ∷ alts)) (raws_interfaces is) in
      let one =
        parse_interface-encode env mem alloc a.desc.b_interface_number a alts (raws_interfaces is)
          buf buflen t fuel v.0.1 v.0.2 (raws_interfaces-ScanOk is v.1) (rw raws h) (rw raws e)
          small b ne (omega arith) (rw raws ends) f zero_interface in
      let at_end =
        subst (λ x. get_elem? mem (x + 1) ≡ some t) {x = buf + buflen}
          {y = buf + length here + length (encode_interfaces is)} (omega arith) b in
      let ih =
        interfaces_loop-encode fuel cfg is (buf + length here) (length (encode_interfaces is)) t
          (ifs ++ (interface_of (a ∷ alts) ∷ [])) v.1 parts.1 refl (omega arith) at_end ne
          (omega arith) (omega arith) in
      ground (
        arith,
        one,
        ih,
        size,
        first,
        firsts,
        append_assoc ifs (interface_of (a ∷ alts) ∷ []) (map interface_of is),
      )
