-- ===== src/Descriptors/EndpointsLoop.antt =====
-- What may follow an alternate setting, and the loop of `usbi_parse_interface` over the endpoints
-- of one.
use mathlib.Core.List.{append_assoc, append-nil}
use libopenusb.Prelude.{
  leb, ◌==◌, length, length-append, Holds, Holds-append, ℕ, ◌+◌, ◌-◌, ◌^◌, ◌≤◌, ◌<◌, ◌≡◌, refl,
  subst, ◌⊎◌, inl, inr, true, false, ◌&&◌, ◌||◌, List, [], ◌∷◌, ◌++◌, map, append_assoc, append-nil,
  arith,
}
use libopenusb.Codes.{type_device, type_config, type_interface, type_endpoint}
use libopenusb.Run.{ok}
use libopenusb.Proc.{next}
use libopenusb.Descriptors.{Header, Endpoint, Block, Env, read_header, is_proper}
use libopenusb.Descriptors.Tree.{
  EndpointTree, encode_endpoint, encode_endpoints, All, EndpointOk, endpoint_of,
}
use libopenusb.Descriptors.Reading.{read_header-Holds, read_header-zero}
use libopenusb.Descriptors.SkipRoundTrip.{Stops, Stops-at, wrap_sub_lem}
use libopenusb.Descriptors.EndpointRoundTrip.{length-endpoint, parse_endpoint-encode}
use libopenusb.Descriptors.InterfaceParser.{IfcState, endpoints_loop}

-- What may follow an alternate setting's descriptors, `n` bytes before the end: nothing, or an
-- interface or endpoint that fits.
abbrev pub Follows : List ℕ → ℕ → ℕ → Type 0
Follows mem p n =
    (n ≡ 0)
    ⊎ ((b t : ℕ) × Holds mem p (b ∷ t ∷ [])
        × ((t ≡ type_interface) ⊎ (t ≡ type_endpoint))
        × (2 ≤ b)
        × (b ≤ n))

pub Follows-at : (mem : List ℕ) {p q n m : ℕ} → Follows mem p n → p ≡ q → n ≡ m → Follows mem q m
Follows-at mem {p} {q} {n} {m} e pe ne =
    subst (λ x. Follows mem x m) pe (subst (λ x. Follows mem p x) ne e)

pub Follows-Stops : (mem : List ℕ) (p n : ℕ) → Follows mem p n → Stops mem p n
unfolding is_proper
Follows-Stops mem p n (inl e) = inl (omega arith)
Follows-Stops mem p n (inr (b, t, h, k, two, le)) = inr (b, t, h, ground arith, two, le)

pub Follows-endpoints :
    (mem : List ℕ) (es : List EndpointTree) (p n : ℕ)
    → All EndpointOk es
    → Holds mem p (encode_endpoints es)
    → length (encode_endpoints es) ≤ n
    → Follows mem (p + length (encode_endpoints es)) (n - length (encode_endpoints es))
    → Follows mem p n
Follows-endpoints mem [] p n v h le s = Follows-at mem s (omega arith) (omega arith)
Follows-endpoints mem (e ∷ es) p n v h le s = inr (
  e.desc.b_length,
  e.desc.b_descriptor_type,
  (h.0, (h.1.0, tt)),
  inr v.0.kind,
  ground (arith, v.0.size),
  omega (arith, length-endpoint e v.0, length-append (encode_endpoint e) (encode_endpoints es)),
)

-- A header read there is none of a configuration or a device.
pub Follows-header :
    (mem : List ℕ) (p n : ℕ) (old : Header)
    → Follows mem p n
    → (h : Header) × (read_header mem p n old ≡ ok h)
      × ((leb 2 n && (h.b_descriptor_type == type_config || h.b_descriptor_type == type_device))
          ≡ false)
Follows-header mem p n old (inl e) = (old, rw e (read_header-zero mem p old), rw e refl)
Follows-header mem p n old (inr (b, t, h, k, two, le)) = (
  record { b_length = b; b_descriptor_type = t },
  read_header-Holds mem p n b t old h (omega arith),
  ground arith,
)

-- A standard descriptor at hand ends what is before it.
pub Stops-endpoints :
    (mem : List ℕ) (es : List EndpointTree) (p n : ℕ)
    → All EndpointOk es
    → Holds mem p (encode_endpoints es)
    → length (encode_endpoints es) ≤ n
    → Stops mem (p + length (encode_endpoints es)) (n - length (encode_endpoints es))
    → Stops mem p n
Stops-endpoints mem [] p n v h le s = Stops-at mem s (omega arith) (omega arith)
Stops-endpoints mem (e ∷ es) p n v h le s = inr (
  e.desc.b_length,
  e.desc.b_descriptor_type,
  (h.0, (h.1.0, tt)),
  rw v.0.kind (unfold is_proper in refl),
  ground (arith, v.0.size),
  omega (arith, length-endpoint e v.0, length-append (encode_endpoint e) (encode_endpoints es)),
)

-- The state after so many bytes of endpoints.
abbrev pub moved : IfcState → ℕ → Header → IfcState
moved s n h = record s { buf = s.buf + n; buflen = s.buflen - n; parsed = s.parsed + n; header = h }

module _ (env : Env) (mem : List ℕ) (alloc : (b : Block) → env.alloc b ≡ true) where
  pub endpoints_loop-encode :
      (es : List EndpointTree) (s : IfcState) (eps : List Endpoint)
      → All EndpointOk es
      → Holds mem s.buf (encode_endpoints es)
      → length (encode_endpoints es) ≤ s.buflen
      → s.buflen < 2 ^ 32
      → Stops mem (s.buf + length (encode_endpoints es)) (s.buflen - length (encode_endpoints es))
      → (h : Header) × (endpoints_loop env mem (length es) s eps
          ≡ ok (next (moved s (length (encode_endpoints es)) h, eps ++ map endpoint_of es)))
  unfolding endpoints_loop
  endpoints_loop-encode [] s eps v h le m st = (s.header, ground (arith, append-nil eps))
  endpoints_loop-encode (e ∷ es) s eps v h le m st =
      let one = length (encode_endpoint e) in
      let both = length-append (encode_endpoint e) (encode_endpoints es) in
      let parts = Holds-append mem (encode_endpoint e) (encode_endpoints es) s.buf h in
      let here : Header = record {
        b_length = e.desc.b_length;
        b_descriptor_type = e.desc.b_descriptor_type;
      } in
      let s' = moved s one here in
      let far : Stops mem (s.buf + one + length (encode_endpoints es))
          (s.buflen - one - length (encode_endpoints es)) =
        Stops-at mem st (omega arith) (omega arith) in
      let stop =
        Stops-endpoints mem es (s.buf + one) (s.buflen - one) v.1 parts.1 (omega arith) far in
      let ih =
        endpoints_loop-encode es s' (eps ++ (endpoint_of e ∷ [])) v.1 parts.1 (omega arith)
          (omega arith) far in
      (
        ih.0,
        ground (
          arith,
          read_header-Holds mem s.buf s.buflen e.desc.b_length e.desc.b_descriptor_type s.header
              (h.0, (h.1.0, tt)) (omega (arith, length-endpoint e v.0, v.0.size)),
          length-endpoint e v.0,
          parse_endpoint-encode env mem e s.buf s.buflen alloc v.0 parts.0 (omega arith) m stop,
          wrap_sub_lem (2 ^ 32) s.buflen one (omega arith) m,
          ih.1,
          both,
          append_assoc eps (endpoint_of e ∷ []) (map endpoint_of es),
        ),
      )
