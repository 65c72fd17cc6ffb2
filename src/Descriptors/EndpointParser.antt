-- ===== src/Descriptors/EndpointParser.antt =====
-- `usbi_parse_endpoint` of openusb/src/descriptors.c. `header` is not initialised there: its
-- contents are `junk` of the environment. The callers never pass a null `buf`.
use libopenusb.Prelude.{
  ltb, leb, ◌==◌, if◌then◌else◌, codes, length, ℤ, pos, ℕ, suc, ◌+◌, ◌-◌, ◌%◌, ◌^◌, Bool, true,
  false, not, Option, none, some, List,
}
use libopenusb.Codes.{success, platform_failure, parse_error, type_endpoint}
use libopenusb.Run.{Run, ok, fault, no_fuel}
use libopenusb.Proc.{ret, Proc, ◌>>=◌, ◌>>◌, pure, lift, return_if, some_or, body}
use libopenusb.Descriptors.{
  Header, Slot, null, live, Endpoint, Block, extra_bytes, read_header, read_endpoint_desc,
  copy_bytes, Env,
}
use libopenusb.Descriptors.Skip.{unchecked_loop, skip_extra}

-- The bytes passed over, copied into a block if there are any; `none` where `calloc` answers null.
unfoldable pub copy_extra : (Block → Bool) → List ℕ → ℕ → ℕ → Run (Option (Slot (List ℕ)))
copy_extra alloc mem extra n = elim (n == 0) [
  | true ↦ ok (some null)
  | false ↦ elim (alloc (extra_bytes n)) [
    | true ↦ elim (copy_bytes mem extra n) [
      | ok bs ↦ ok (some (live bs))
      | fault ↦ fault
      | no_fuel ↦ no_fuel
    ]
    | false ↦ ok none
  ]
]

-- Which format the endpoint's length asks for.
unfoldable pub endpoint_format : ℕ → List ℕ
endpoint_format b_length = if leb 9 b_length then codes "bbbbwbbb" else codes "bbbbwb"

-- The tests on the header, which return before anything is stored.
unfoldable pub refuse_endpoint : ℕ → Header → Option ℤ
refuse_endpoint buflen h =
    if ltb buflen h.b_length
    then some platform_failure
    else if not (h.b_descriptor_type == type_endpoint)
    then some success
    else if ltb h.b_length 7
    then some success
    else none

abbrev pub EndpointOut : Type 0
EndpointOut = ℤ × Endpoint

-- if (extra_len) { ep->extra = …; ep->extralen = extra_len; }, where extralen has 16 bits
unfoldable pub keep_extra : Endpoint → ℕ → Slot (List ℕ) → Endpoint
keep_extra ep n extra = if n == 0 then ep else record ep { extra = extra; extralen = n % 2 ^ 16 }

-- After the tests on the header.
unfoldable pub endpoint_rest :
    (Block → Bool) → List ℕ → Endpoint → ℕ → ℕ → Header → Proc EndpointOut EndpointOut
endpoint_rest alloc mem ep buf buflen h = do
  desc ← lift (read_endpoint_desc (endpoint_format h.b_length) mem buf buflen ep.desc)
  skipped ← lift (
      skip_extra unchecked_loop mem (suc (length mem)) (record {
        buf = buf + h.b_length;
        buflen = buflen - h.b_length;
        parsed = h.b_length;
        extra_len = 0;
        header = h;
      }))
  s ← some_or skipped (platform_failure, record ep { desc = desc })
  copied ← lift (copy_extra alloc mem (buf + h.b_length) s.extra_len)
  extra ← some_or copied (platform_failure, record ep { desc = desc; extra = null })
  pure (pos s.parsed, keep_extra (record ep { desc = desc }) s.extra_len extra)

-- `buf` is an offset in the block `mem`; the result is the number of bytes parsed, or an error. A
-- loop that goes past the block faults, so the block's length bounds its rounds.
unfoldable pub usbi_parse_endpoint : Env → List ℕ → Endpoint → ℕ → ℕ → Run EndpointOut
usbi_parse_endpoint env mem ep buf buflen =
    body
      (do
        return_if (buflen == 0) (parse_error, ep)
        h ← lift (read_header mem buf buflen env.junk)
        (elim (refuse_endpoint buflen h) [
          | some r ↦ ok (ret (r, ep))
          | none ↦ endpoint_rest env.alloc mem ep buf buflen h
        ]))
      ok
