-- ===== src/Descriptors/InterfaceRoundTrip.antt =====
-- `usbi_parse_interface` rebuilds an interface from its bytes.
use libopenusb.Prelude.{
  length, length-map, drop, get_elem?, length-append, Holds, Holds-append, pos, ℕ, ◌+◌, ◌^◌, ◌≤◌,
  ◌<◌, ◌≡◌, refl, ap, ◌∙◌, ◌≢◌, true, some, List, [], ◌∷◌, ◌++◌, arith, subst, sym,
}
use libopenusb.Codes.{type_interface}
use libopenusb.Run.{ok, load}
use libopenusb.Proc.{next}
use libopenusb.ParseData.Layout.{encode}
use libopenusb.Descriptors.{Interface, Block, altsetting_array, Env}
use libopenusb.Descriptors.Tree.{
  altsetting_of, ExtraDesc, AltTree, encode_extras, interface_fields, encode_alt, encode_alts, All,
  AltOk, interface_of,
}
use libopenusb.Descriptors.AltCounter.{usbi_get_intf_altno}
use libopenusb.Descriptors.InterfaceParser.{interface_head, usbi_parse_interface}
use libopenusb.Descriptors.AltRoundTrip.{length-alt}
use libopenusb.Descriptors.InterfaceLoop.{IfcEnd, IfcEnd-at, Alternate, interface_loop-encode}
use libopenusb.Descriptors.AltCountLaws.{hits, count_hits, ScanOk, get_intf_altno-encode}
use libopenusb.Descriptors.Flatten.{
  raws_endpoints, raws_alts, raw_alt, All-append, raws_alts-ScanOk, count_hits-append, count-alts,
  encode_extras-append, encode_raws-alts,
}

-- All the descriptors behind a first alternate setting.
abbrev pub behind_first : AltTree → List AltTree → List ExtraDesc → List ExtraDesc
behind_first a alts rest = a.extras ++ (raws_endpoints a.endpoints ++ (raws_alts alts ++ rest))

length-le-raws : (alts : List AltTree) → length alts ≤ length (raws_alts alts)
length-le-raws [] = omega arith
length-le-raws (a ∷ alts) = omega (
  arith,
  length-le-raws alts,
  length-append a.extras (raws_endpoints a.endpoints ++ raws_alts alts),
  length-append (raws_endpoints a.endpoints) (raws_alts alts),
)

module _ (env : Env) (mem : List ℕ) (alloc : (b : Block) → env.alloc b ≡ true) (ifc : ℕ)
    (a : AltTree) (alts : List AltTree) (rest : List ExtraDesc) (buf buflen t fuel : ℕ)
    (v : All (AltOk ifc) (a ∷ alts)) (alt : All Alternate alts) (scan : All ScanOk rest)
    (h : Holds mem buf (encode_alts (a ∷ alts) ++ encode_extras rest))
    (size : length (encode_alts (a ∷ alts) ++ encode_extras rest) ≡ buflen)
    (small : buflen < 2 ^ 31) (slack : get_elem? mem (buf + buflen + 1) ≡ some t)
    (slack_type : t ≢ type_interface) (few : length (a ∷ alts) + count_hits ifc rest < 256)
    (ends : IfcEnd mem (buf + length (encode_alts (a ∷ alts))) (length (encode_extras rest)))
    (enough : length (raws_alts (a ∷ alts) ++ rest) < fuel) where
  all_raws :
      encode_extras (raws_alts (a ∷ alts) ++ rest) ≡ encode_alts (a ∷ alts) ++ encode_extras rest
  all_raws =
      encode_extras-append (raws_alts (a ∷ alts)) rest
      ∙ ap (λ l. l ++ encode_extras rest) (encode_raws-alts ifc (a ∷ alts) v)

  others : List ExtraDesc
  others = a.extras ++ (raws_endpoints a.endpoints ++ raws_alts alts)

  counted : count_hits ifc (raws_alts (a ∷ alts)) ≡ length (a ∷ alts)
  counted = ground (arith, count-alts ifc ifc (a ∷ alts) v)

  hits_first : hits ifc (raw_alt a) ≡ true
  hits_first = ground (arith, v.0.kind, v.0.number)

  altno : usbi_get_intf_altno mem fuel buf buflen ≡ ok (length (a ∷ alts) + count_hits ifc rest)
  unfolding others
  altno =
      let d = a.desc in
      let count_fact = count_hits-append ifc others rest in
      let scans =
        All-append ScanOk (raws_alts (a ∷ alts)) rest (raws_alts-ScanOk ifc (a ∷ alts) v) scan in
      let run =
        get_intf_altno-encode mem fuel buf buflen d.b_descriptor_type d.b_interface_number t
          (drop 3 (encode (interface_fields d))) (others ++ rest) scans
          (subst (λ l. Holds mem buf l) (sym all_raws) h)
          (subst (λ l. length l ≡ buflen) (sym all_raws) size) small slack slack_type
          (omega (arith, enough)) in
      run ∙ ap ok (ground (arith, v.0.number, count_fact, counted, hits_first))

  head :
      (intf : Interface)
      → interface_head env mem fuel intf buf buflen
        ≡ ok (next (length (a ∷ alts) + count_hits ifc rest))
  unfolding interface_head load
  head intf = ground (
    arith,
    length-append (encode_alts (a ∷ alts)) (encode_extras rest),
    length-append (encode_alt a) (encode_alts alts),
    length-alt env mem alloc ifc a v.0,
    altno,
    h.1.0,
    v.0.kind,
    few,
    alloc (altsetting_array (length (a ∷ alts) + count_hits ifc rest)),
  )

  -- `usbi_parse_interface` rebuilds one interface: where `calloc` answers, and the buffer holds the
  -- encoding of its well-formed alternate settings, the first and then others than 0, followed by
  -- nothing or by an alternate setting 0, it returns the number of their bytes and the interface.
  -- What follows are descriptors that the scan can pass, fewer than 256 alternate settings are
  -- counted, and the byte after next behind the buffer is not the type of an interface.
  pub parse_interface-encode :
      (intf : Interface)
      → usbi_parse_interface env mem fuel intf buf buflen
        ≡ ok (pos (length (encode_alts (a ∷ alts))), interface_of (a ∷ alts))
  unfolding usbi_parse_interface
  parse_interface-encode intf =
      let sizes = length-append (encode_alts (a ∷ alts)) (encode_extras rest) in
      let cap = length (a ∷ alts) + count_hits ifc rest in
      let loop =
        interface_loop-encode env mem alloc ifc a alts fuel
          (record {
            buf = buf;
            buflen = buflen;
            parsed = 0;
            header = env.junk;
            cap = cap;
            done = [];
          })
          v alt (Holds-append mem (encode_alts (a ∷ alts)) (encode_extras rest) buf h).0
          (omega arith) (omega arith) (omega arith) (IfcEnd-at mem ends refl (omega arith))
          (omega (arith, length-le-raws (a ∷ alts), length-append (raws_alts (a ∷ alts)) rest)) in
      rw (head intf) ((loop ∙ ground (arith, length-map altsetting_of alts)))
