-- ===== src/Descriptors/InterfaceParser.antt =====
-- `usbi_parse_interface` of openusb/src/descriptors.c. Fuel bounds the rounds of its loop, which C
-- does not bound.
use libopenusb.Prelude.{
  ltb, leb, ◌==◌, if◌then◌else◌, length, ℤ, pos, negsuc, is_neg, nat_of, ℕ, zero, suc, ◌+◌, ◌-◌,
  ◌%◌, ◌^◌, Bool, true, false, not, ◌&&◌, ◌||◌, List, [], ◌∷◌, ◌++◌,
}
use libopenusb.Codes.{platform_failure, parse_error, type_device, type_config, type_interface}
use libopenusb.Run.{Run, ok, fault, no_fuel, load}
use libopenusb.Proc.{next, ret, Proc, ◌>>=◌, ◌>>◌, pure, lift, return_if, some_or, body}
use libopenusb.ParseData.{u32_mod}
use libopenusb.Descriptors.{
  Header, InterfaceDesc, null, live, freed, Endpoint, Altsetting, Interface, altsetting_array,
  endpoint_array, Env, zero_endpoint, read_header, read_interface_desc, wrap_sub,
}
use libopenusb.Descriptors.Skip.{unchecked_loop, skip_extra}
use libopenusb.Descriptors.EndpointParser.{copy_extra, usbi_parse_endpoint}
use libopenusb.Descriptors.AltCounter.{usbi_get_intf_altno}

abbrev pub InterfaceOut : Type 0
InterfaceOut = ℤ × Interface

-- The variables of `usbi_parse_interface`: `cap` is the length of the array of alternate settings,
-- of which `done` are filled.
pub record IfcState : Type 0 where
  pub buf : ℕ
  pub buflen : ℕ
  pub parsed : ℕ
  pub header : Header
  pub cap : ℕ
  pub done : List Altsetting

abbrev pub filled : List Altsetting → Interface
filled done = record { num_altsettings = length done; altsettings = live done }

-- free(intf->altsettings); num_altsettings counts the one at work too, and the pointer stays
abbrev pub abandoned : List Altsetting → Interface
abandoned done = record { num_altsettings = length done + 1; altsettings = freed }

-- An element that only its descriptor has been read into.
abbrev pub bare_altsetting : InterfaceDesc → Altsetting
bare_altsetting d = record {
  desc = d;
  num_endpoints = 0;
  endpoints = null;
  extra = null;
  extralen = 0;
}

-- An element of the array.
unfoldable pub in_array : ℕ → ℕ → Run (Unit {0})
in_array i cap = if ltb i cap then ok tt else fault

-- The error paths that free the endpoints of `altsettings + num_altsettings`, an element that was
-- never filled, before the array.
unfoldable pub free_all : ℤ → IfcState → Run InterfaceOut
unfolding in_array
free_all r s = elim (in_array (length s.done + 1) s.cap) [
  | ok _ ↦ ok (r, abandoned s.done)
  | fault ↦ fault
  | no_fuel ↦ no_fuel
]

abbrev pub failing : {A : Type 0} → Run InterfaceOut → Proc InterfaceOut A
failing (ok r) = ok (ret r)
failing fault = fault
failing no_fuel = no_fuel

-- The endpoints of one alternate setting; `eps` are those parsed, and the state's `buf`, `buflen`
-- and `parsed` move with them.
unfoldable pub endpoints_loop :
    Env → List ℕ → ℕ → IfcState → List Endpoint → Proc InterfaceOut (IfcState × List Endpoint)
endpoints_loop env mem zero s eps = pure (s, eps)
endpoints_loop env mem (suc n) s eps = do
  h ← lift (read_header mem s.buf s.buflen s.header)
  (elim (ltb s.buflen h.b_length) [
    | true ↦ failing (free_all platform_failure s)
    | false ↦ do
      r ← lift (usbi_parse_endpoint env mem zero_endpoint s.buf s.buflen)
      (elim (is_neg r.0) [
        | true ↦ failing (free_all r.0 s)
        | false ↦
            endpoints_loop env mem n
              (record s {
                buf = s.buf + nat_of r.0;
                buflen = wrap_sub u32_mod s.buflen (nat_of r.0);
                parsed = s.parsed + nat_of r.0;
                header = h;
              })
              (eps ++ (r.1 ∷ []))
      ])
  ])

-- The descriptor, and what is skipped behind it: from `as = intf->altsettings + …` to the copy of
-- the extra bytes.
unfoldable pub altsetting_head : Env → List ℕ → IfcState → Proc InterfaceOut (IfcState × Altsetting)
unfolding in_array
altsetting_head env mem s = do
  h ← lift (read_header mem s.buf s.buflen s.header)
  room ← lift (in_array (length s.done) s.cap)
  desc ← lift (read_interface_desc mem s.buf s.buflen)
  skipped ← lift (
      skip_extra unchecked_loop mem (suc (length mem)) (record {
        buf = s.buf + h.b_length;
        buflen = wrap_sub u32_mod s.buflen h.b_length;
        parsed = s.parsed + h.b_length;
        extra_len = 0;
        header = h;
      }))
  sk ← some_or skipped (platform_failure, abandoned s.done)
  copied ← lift (copy_extra env.alloc mem (s.buf + h.b_length) sk.extra_len)
  extra ← some_or copied (platform_failure, filled (s.done ++ (bare_altsetting desc ∷ [])))
  pure (
    record s { buf = sk.buf; buflen = sk.buflen; parsed = sk.parsed; header = sk.header },
    record (bare_altsetting desc) { extra = extra; extralen = sk.extra_len },
  )

-- An unexpected descriptor ends the interface; too many endpoints are refused; then their array is
-- allocated and filled.
unfoldable pub altsetting_endpoints :
    Env → List ℕ → IfcState × Altsetting → Proc InterfaceOut IfcState
altsetting_endpoints env mem (s, alt) = do
  h ← lift (read_header mem s.buf s.buflen s.header)
  let n = alt.desc.b_num_endpoints
  return_if
      (leb 2 s.buflen && (h.b_descriptor_type == type_config || h.b_descriptor_type == type_device))
      (pos s.parsed, filled (s.done ++ (alt ∷ [])))
  return_if (ltb 32 n) (platform_failure, abandoned s.done)
  room ← (if env.alloc (endpoint_array n) then pure tt else failing (free_all platform_failure s))
  filled_eps ← endpoints_loop env mem n (record s { header = h }) []
  pure (record (filled_eps.0) {
    done = s.done ++ (record alt { num_endpoints = n; endpoints = live filled_eps.1 } ∷ []);
  })

-- The test whether an alternate of this interface follows; the flag says so.
unfoldable pub alternate_follows : List ℕ → IfcState → Run (IfcState × Bool)
alternate_follows mem s = elim (s.buflen == 0) [
  | true ↦ ok (s, true)
  | false ↦ elim (read_header mem s.buf s.buflen s.header) [
    | ok h ↦ elim (load mem (s.buf + 3)) [
      | ok alt_num ↦ ok (
        record s { header = h },
        not (ltb s.buflen 9 || not (h.b_descriptor_type == type_interface) || alt_num == 0),
      )
      | fault ↦ fault
      | no_fuel ↦ no_fuel
    ]
    | fault ↦ fault
    | no_fuel ↦ no_fuel
  ]
]

-- One round of the loop, to the state at its next test.
unfoldable pub altsetting_round : Env → List ℕ → IfcState → Proc InterfaceOut IfcState
altsetting_round env mem s = do
  headed ← altsetting_head env mem s
  s' ← altsetting_endpoints env mem headed
  checked ← lift (alternate_follows mem s')
  return_if (not (checked.1)) (pos s'.parsed, filled s'.done)
  pure (checked.0)

unfoldable pub interface_loop : Env → List ℕ → ℕ → IfcState → Run InterfaceOut
interface_loop env mem zero s = no_fuel
interface_loop env mem (suc fuel) s = elim (ltb s.buflen 9) [
  | true ↦ ok (pos s.parsed, filled s.done)
  | false ↦ elim (altsetting_round env mem s) [
    | ok (next s') ↦ interface_loop env mem fuel s'
    | ok (ret r) ↦ ok r
    | fault ↦ fault
    | no_fuel ↦ no_fuel
  ]
]

-- An unsigned int returned as an int.
abbrev pub to_int : ℕ → ℤ
to_int n = if ltb n (2 ^ 31) then pos n else negsuc (2 ^ 32 - 1 - n)

-- Up to the loop: the length of the array of alternate settings, which is allocated.
unfoldable pub interface_head : Env → List ℕ → ℕ → Interface → ℕ → ℕ → Proc InterfaceOut ℕ
interface_head env mem fuel intf buf buflen = do
  return_if (buflen == 0) (parse_error, intf)
  t ← lift (load mem (buf + 1))
  return_if (not (t == type_interface)) (to_int buflen, intf)
  altno ← lift (usbi_get_intf_altno mem fuel buf buflen)
  return_if (not (env.alloc (altsetting_array (altno % 256))))
      (platform_failure, record { num_altsettings = 0; altsettings = null })
  pure (altno % 256)

-- `buf` is never null in the callers. `intf` comes zeroed, as the caller's calloc left it.
unfoldable pub usbi_parse_interface : Env → List ℕ → ℕ → Interface → ℕ → ℕ → Run InterfaceOut
usbi_parse_interface env mem fuel intf buf buflen =
    body (interface_head env mem fuel intf buf buflen) (λ cap.
      interface_loop env mem fuel (record {
        buf = buf;
        buflen = buflen;
        parsed = 0;
        header = env.junk;
        cap = cap;
        done = [];
      }))
