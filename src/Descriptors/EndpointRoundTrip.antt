-- ===== src/Descriptors/EndpointRoundTrip.antt =====
-- `usbi_parse_endpoint` rebuilds an endpoint from its bytes.
use libopenusb.Prelude.{
  length, length-append, Holds, Holds-at, Holds-append, Holds-le, pos, ℕ, suc, ◌+◌, ◌-◌, ◌^◌, ◌≤◌,
  ◌<◌, ◌≡◌, refl, Bool, true, none, some, List, [], ◌∷◌, arith,
}
use libopenusb.Run.{ok, load}
use libopenusb.ParseData.Layout.{encode}
use libopenusb.Descriptors.{Header, Block, extra_bytes, Env, zero_endpoint, copy_bytes}
use libopenusb.Descriptors.Tree.{
  ExtraDesc, EndpointTree, encode_extra, encode_extras, endpoint_fields, encode_endpoint, ExtraOk,
  All, EndpointOk, extra_slot, endpoint_of,
}
use libopenusb.Descriptors.Skip.{Skip, Loop, unchecked_loop, skip_extra}
use libopenusb.Descriptors.Reading.{read_header-Holds, read_endpoint_desc-Holds}
use libopenusb.Descriptors.SkipRoundTrip.{Stops, Stops-at, skipped, skip_extra-encode}
use libopenusb.Descriptors.EndpointParser.{
  copy_extra, refuse_endpoint, keep_extra, endpoint_rest, usbi_parse_endpoint,
}

copy_bytes-Holds : (mem bs : List ℕ) (p : ℕ) → Holds mem p bs → copy_bytes mem p (length bs) ≡ ok bs
unfolding copy_bytes load
copy_bytes-Holds mem [] p h = refl
copy_bytes-Holds mem (b ∷ bs) p h = ground (arith, copy_bytes-Holds mem bs (p + 1) h.1)

pub copy_extra-Holds :
    (alloc : Block → Bool) (mem bs : List ℕ) (p : ℕ)
    → alloc (extra_bytes (length bs)) ≡ true
    → Holds mem p bs
    → copy_extra alloc mem p (length bs) ≡ ok (some (extra_slot bs))
unfolding copy_extra
copy_extra-Holds alloc mem [] p a h = refl
copy_extra-Holds alloc mem (b ∷ bs) p a h = ground (arith, copy_bytes-Holds mem (b ∷ bs) p h)

pub count-le-encode_extras : (xs : List ExtraDesc) → length xs ≤ length (encode_extras xs)
count-le-encode_extras [] = omega arith
count-le-encode_extras (x ∷ xs) =
    omega (arith, count-le-encode_extras xs, length-append (encode_extra x) (encode_extras xs))

-- The loop of one run, with the fuel that the parsers give it.
pub skip_extra-run :
    (l : Loop) (mem : List ℕ) (xs : List ExtraDesc) (s : Skip)
    → All ExtraOk xs
    → Holds mem s.buf (encode_extras xs)
    → length (encode_extras xs) ≤ s.buflen
    → s.buflen < l.modulus
    → Stops mem (s.buf + length (encode_extras xs)) (s.buflen - length (encode_extras xs))
    → (h : Header) × (skip_extra l mem (suc (length mem)) s
        ≡ ok (some (skipped s (length (encode_extras xs)) h)))
skip_extra-run l mem xs s v h n m e =
    skip_extra-encode l mem xs (suc (length mem)) s v h n m e
      (omega (arith, count-le-encode_extras xs, Holds-le mem (encode_extras xs) s.buf h))

-- The endpoint's length is that of its fields, and the extra bytes follow.
length-fields :
    (e : EndpointTree) → EndpointOk e → length (encode (endpoint_fields e.desc)) ≡ e.desc.b_length
length-fields e v = ground (arith, v.size)

pub length-endpoint :
    (e : EndpointTree)
    → EndpointOk e
    → length (encode_endpoint e) ≡ e.desc.b_length + length (encode_extras e.extras)
length-endpoint e v = omega (
  arith,
  length-append (encode (endpoint_fields e.desc)) (encode_extras e.extras),
  length-fields e v,
)

module _ (env : Env) (mem : List ℕ) (e : EndpointTree) (buf buflen : ℕ)
    (alloc : (b : Block) → env.alloc b ≡ true) (v : EndpointOk e)
    (h : Holds mem buf (encode_endpoint e)) (fits : length (encode_endpoint e) ≤ buflen)
    (small : buflen < 2 ^ 32)
    (stops : Stops mem
      (buf + length (encode_endpoint e))
      (buflen - length (encode_endpoint e))) where
  extras : List ℕ
  extras = encode_extras e.extras

  extras-Holds : Holds mem (buf + e.desc.b_length) extras
  unfolding extras
  extras-Holds =
      Holds-at mem extras (Holds-append mem (encode (endpoint_fields e.desc)) extras buf h).1
        (omega (arith, length-fields e v))

  accepted :
      refuse_endpoint buflen
        (record { b_length = e.desc.b_length; b_descriptor_type = e.desc.b_descriptor_type })
      ≡ none
  unfolding refuse_endpoint
  accepted = ground (arith, v.size, v.kind, length-endpoint e v)

  start : Skip
  start = record {
    buf = buf + e.desc.b_length;
    buflen = buflen - e.desc.b_length;
    parsed = e.desc.b_length;
    extra_len = 0;
    header = record { b_length = e.desc.b_length; b_descriptor_type = e.desc.b_descriptor_type };
  }

  skips :
      (h' : Header) × (skip_extra unchecked_loop mem (suc (length mem)) start
        ≡ ok (some (skipped start (length extras) h')))
  unfolding start extras
  skips =
      skip_extra-run unchecked_loop mem e.extras start v.extras extras-Holds
        (omega (arith, length-endpoint e v)) (omega arith)
        (Stops-at mem stops (omega (arith, length-endpoint e v))
          (omega (arith, length-endpoint e v)))

  -- `usbi_parse_endpoint` rebuilds one endpoint: where `calloc` answers, the block holds the
  -- encoding of a standard or audio endpoint and its specific descriptors, it fits the buffer, and
  -- a standard descriptor or less than a header follows, it returns the number of its bytes and the
  -- endpoint with its extra bytes.
  pub parse_endpoint-encode :
      usbi_parse_endpoint env mem zero_endpoint buf buflen
      ≡ ok (pos (length (encode_endpoint e)), endpoint_of e)
  unfolding usbi_parse_endpoint endpoint_rest keep_extra start extras
  parse_endpoint-encode = ground (
    arith,
    read_header-Holds mem buf buflen e.desc.b_length e.desc.b_descriptor_type env.junk
        (h.0, (h.1.0, tt)) (omega (arith, length-endpoint e v)),
    accepted,
    read_endpoint_desc-Holds mem buf buflen e v
        (Holds-append mem (encode (endpoint_fields e.desc)) extras buf h).0
        (omega (arith, length-endpoint e v)),
    skips,
    copy_extra-Holds env.alloc mem extras (buf + e.desc.b_length)
        (alloc (extra_bytes (length extras))) extras-Holds,
    length-endpoint e v,
    v.extra_size,
  )
