-- ===== src/Descriptors/AltRoundTrip.antt =====
-- One round of `usbi_parse_interface`: an alternate setting with its endpoints.
use libopenusb.Prelude.{
  if◌then◌else◌, length, length-append, Holds, Holds-at, Holds-append, pos, ℕ, ◌+◌, ◌-◌, ◌^◌, ◌≤◌,
  ◌<◌, ◌≡◌, Bool, true, List, [], ◌∷◌, ◌++◌, arith,
}
use libopenusb.Run.{ok}
use libopenusb.Proc.{next, ret}
use libopenusb.ParseData.Layout.{encode}
use libopenusb.Descriptors.{Header, Altsetting, Block, extra_bytes, endpoint_array, Env}
use libopenusb.Descriptors.Tree.{
  AltTree, encode_extras, interface_fields, encode_endpoints, encode_alt, AltOk, extra_slot,
  altsetting_of,
}
use libopenusb.Descriptors.Reading.{read_header-Holds, read_interface_desc-Holds}
use libopenusb.Descriptors.Skip.{Skip, unchecked_loop}
use libopenusb.Descriptors.SkipRoundTrip.{wrap_sub_lem}
use libopenusb.Descriptors.EndpointRoundTrip.{copy_extra-Holds, skip_extra-run}
use libopenusb.Descriptors.InterfaceParser.{
  IfcState, filled, bare_altsetting, altsetting_head, altsetting_endpoints, alternate_follows,
  altsetting_round,
}
use libopenusb.Descriptors.EndpointsLoop.{
  Follows, Follows-at, Follows-Stops, Follows-endpoints, Follows-header, moved,
  endpoints_loop-encode,
}

module _ (env : Env) (mem : List ℕ) (alloc : (b : Block) → env.alloc b ≡ true) where
  module _ (ifc : ℕ) (a : AltTree) (v : AltOk ifc a) where
    pub length-alt :
        length (encode_alt a)
        ≡ 9 + length (encode_extras a.extras) + length (encode_endpoints a.endpoints)
    length-alt =
        omega (arith, length-append (encode_extras a.extras) (encode_endpoints a.endpoints))

    module _ (s : IfcState) (h : Holds mem s.buf (encode_alt a))
        (le : length (encode_alt a) ≤ s.buflen) (small : s.buflen < 2 ^ 32)
        (room : length s.done < s.cap)
        (ends : Follows mem
          (s.buf + length (encode_alt a))
          (s.buflen - length (encode_alt a))) where
      abbrev here : Header
      here = record { b_length = a.desc.b_length; b_descriptor_type = a.desc.b_descriptor_type }

      extras_at :
          Holds mem
            (s.buf + a.desc.b_length)
            (encode_extras a.extras ++ encode_endpoints a.endpoints)
      extras_at =
          Holds-at mem (encode_extras a.extras ++ encode_endpoints a.endpoints)
            (Holds-append mem (encode (interface_fields a.desc))
              (encode_extras a.extras ++ encode_endpoints a.endpoints) s.buf h).1
            (omega (arith, v.size))

      split :
          Holds mem (s.buf + a.desc.b_length) (encode_extras a.extras)
          × Holds mem
              (s.buf + a.desc.b_length + length (encode_extras a.extras))
              (encode_endpoints a.endpoints)
      split =
          Holds-append mem (encode_extras a.extras) (encode_endpoints a.endpoints)
            (s.buf + a.desc.b_length) extras_at

      abbrev start : Skip
      start = record {
        buf = s.buf + a.desc.b_length;
        buflen = s.buflen - a.desc.b_length;
        parsed = s.parsed + a.desc.b_length;
        extra_len = 0;
        header = here;
      }

      Follows-extras :
          Follows mem
            (start.buf + length (encode_extras a.extras))
            (start.buflen - length (encode_extras a.extras))
      Follows-extras =
          Follows-endpoints mem a.endpoints (start.buf + length (encode_extras a.extras))
            (start.buflen - length (encode_extras a.extras)) v.endpoints split.1
            (omega (arith, length-alt, v.size))
            (Follows-at mem ends (omega (arith, length-alt, v.size))
              (omega (arith, length-alt, v.size)))

      pub altsetting_head-encode :
          (h' : Header) × (altsetting_head env mem s
            ≡ ok (
                next (
                  moved s (9 + length (encode_extras a.extras)) h',
                  record (bare_altsetting a.desc) {
                    extra = extra_slot (encode_extras a.extras);
                    extralen = length (encode_extras a.extras);
                  },
                )))
      unfolding altsetting_head
      altsetting_head-encode =
          let run =
            skip_extra-run unchecked_loop mem a.extras start v.extras split.0
              (omega (arith, length-alt, v.size)) (omega arith)
              (Follows-Stops mem _ _ Follows-extras) in
          (
            run.0,
            ground (
              arith,
              read_header-Holds mem s.buf s.buflen a.desc.b_length a.desc.b_descriptor_type s.header
                  (h.0, (h.1.0, tt)) (omega (arith, length-alt)),
              read_interface_desc-Holds mem s.buf s.buflen a.desc
                  (Holds-append mem (encode (interface_fields a.desc))
                    (encode_extras a.extras ++ encode_endpoints a.endpoints) s.buf h).0
                  (omega (arith, length-alt)),
              wrap_sub_lem (2 ^ 32) s.buflen a.desc.b_length (omega (arith, length-alt, v.size))
                  small,
              run.1,
              copy_extra-Holds env.alloc mem (encode_extras a.extras) (s.buf + a.desc.b_length)
                  (alloc (extra_bytes (length (encode_extras a.extras)))) split.0,
              v.size,
            ),
          )

      -- The state and the element that the head leaves.
      abbrev headed : Header → IfcState
      headed h' = moved s (9 + length (encode_extras a.extras)) h'

      abbrev alt_head : Altsetting
      alt_head = record (bare_altsetting a.desc) {
        extra = extra_slot (encode_extras a.extras);
        extralen = length (encode_extras a.extras);
      }

      pub altsetting_endpoints-encode :
          (h0 : Header)
          → (h' : Header) × (altsetting_endpoints env mem (headed h0, alt_head)
              ≡ ok (
                  next (record (moved s (length (encode_alt a)) h') {
                    done = s.done ++ (altsetting_of a ∷ []);
                  })))
      unfolding altsetting_endpoints
      altsetting_endpoints-encode h0 =
          let s1 = headed h0 in
          let f : Follows mem s1.buf s1.buflen =
            Follows-at mem Follows-extras (omega (arith, v.size)) (omega (arith, v.size)) in
          let hd = Follows-header mem s1.buf s1.buflen h0 f in
          let s2 = record s1 { header = hd.0 } in
          let eps =
            endpoints_loop-encode env mem alloc a.endpoints s2 [] v.endpoints
              (Holds-at mem (encode_endpoints a.endpoints) split.1 (omega (arith, v.size)))
              (omega (arith, length-alt)) (omega arith)
              (Follows-Stops mem _ _
                (Follows-at mem ends (omega (arith, length-alt)) (omega (arith, length-alt)))) in
          (
            eps.0,
            ground (
              arith,
              hd.1,
              hd.2,
              eps.1,
              length-alt,
              v.endpoint_count,
              v.few,
              alloc (endpoint_array (length a.endpoints)),
            ),
          )

      -- The state at the test whether an alternate follows.
      abbrev pub after_alt : Header → IfcState
      after_alt h' = record (moved s (length (encode_alt a)) h') {
        done = s.done ++ (altsetting_of a ∷ []);
      }

      -- One round builds the element, and leaves the test to be made.
      pub altsetting_round-encode :
          (more : Bool)
          → ((h' : Header)
              → (h2 : Header) × (alternate_follows mem (after_alt h')
                  ≡ ok (record (after_alt h') { header = h2 }, more)))
          → (h2 : Header) × (altsetting_round env mem s ≡ (
              if more
              then ok (next (after_alt h2))
              else ok (
                  ret (
                    pos (s.parsed + length (encode_alt a)),
                    filled (s.done ++ (altsetting_of a ∷ [])),
                  ))))
      unfolding altsetting_round
      altsetting_round-encode more test =
          let head = altsetting_head-encode in
          let rest = altsetting_endpoints-encode head.0 in
          let t = test rest.0 in (t.0, ground (arith, head.1, rest.1, t.1))
