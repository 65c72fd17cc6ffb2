-- ===== src/Descriptors/ConfigParser.antt =====
-- `usbi_parse_configuration` of openusb/src/descriptors.c.
use libopenusb.Prelude.{
  ltb, ◌==◌, if◌then◌else◌, length, replicate, ℤ, is_neg, nat_of, ℕ, zero, suc, ◌+◌, ◌%◌, ◌^◌, true,
  false, not, List, [], ◌∷◌, ◌++◌,
}
use libopenusb.Codes.{platform_failure, parse_error}
use libopenusb.Run.{Run, ok, fault, no_fuel}
use libopenusb.Proc.{Proc, ◌>>=◌, ◌>>◌, pure, lift, return_if, some_or, body}
use libopenusb.ParseData.{u32_mod}
use libopenusb.Descriptors.{
  null, live, freed, Interface, Config, interface_array, Env, read_header, read_config_desc,
  wrap_sub,
}
use libopenusb.Descriptors.Skip.{checked_loop, skip_extra}
use libopenusb.Descriptors.EndpointParser.{copy_extra}
use libopenusb.Descriptors.InterfaceParser.{to_int, usbi_parse_interface}

abbrev pub ConfigOut : Type 0
ConfigOut = ℤ × Config

abbrev pub zero_interface : Interface
zero_interface = record { num_altsettings = 0; altsettings = null }

-- struct usbi_config as calloc leaves it
abbrev pub zero_config : Config
zero_config = record {
  desc = record {
    b_length = 0;
    b_descriptor_type = 0;
    w_total_length = 0;
    b_num_interfaces = 0;
    b_configuration_value = 0;
    i_configuration = 0;
    bm_attributes = 0;
    b_max_power = 0;
  };
  num_interfaces = 0;
  interfaces = null;
  extra = null;
  extralen = 0;
}

-- cfg, after `bNumInterfaces` zeroed interfaces have been allocated for it
abbrev pub with_interfaces : Config → List Interface → Config
with_interfaces cfg ifs = record cfg { num_interfaces = length ifs; interfaces = live ifs }

-- free(cfg->interfaces); the pointer and num_interfaces stay
abbrev pub dropped : Config → ℕ → Config
dropped cfg n = record cfg { num_interfaces = n; interfaces = freed }

-- The loop over the interfaces: `n` are left, `ifs` are parsed. buflen is a size_t, and
-- `usbi_parse_interface` takes its low 32 bits.
unfoldable pub interfaces_loop :
    Env → List ℕ → ℕ → Config → ℕ → ℕ → ℕ → List Interface → Run ConfigOut
interfaces_loop env mem fuel cfg zero buf buflen ifs =
    ok (to_int (buflen % u32_mod), with_interfaces cfg ifs)
interfaces_loop env mem fuel cfg (suc n) buf buflen ifs = elim (buflen == 0) [
  | true ↦
      ok (to_int (buflen % u32_mod), with_interfaces cfg (ifs ++ replicate (suc n) zero_interface))
  | false ↦ elim (usbi_parse_interface env mem fuel zero_interface buf (buflen % u32_mod)) [
    | ok (r, intf) ↦ elim (is_neg r) [
      | true ↦ ok (r, dropped cfg (length ifs + suc n))
      | false ↦
          interfaces_loop env mem fuel cfg n (buf + nat_of r) (wrap_sub (2 ^ 64) buflen (nat_of r))
            (ifs ++ (intf ∷ []))
    ]
    | fault ↦ fault
    | no_fuel ↦ no_fuel
  ]
]

-- Where the interfaces begin, and the configuration with its extra bytes.
pub record ConfigHead : Type 0 where
  pub buf : ℕ
  pub buflen : ℕ
  pub cfg : Config

-- Up to the loop over the interfaces; `openusb_parse_data` takes the length by its 32 bits.
unfoldable pub config_head : Env → List ℕ → Config → ℕ → ℕ → Proc ConfigOut ConfigHead
config_head env mem cfg0 buf buflen = do
  return_if (buflen == 0) (parse_error, cfg0)
  h ← lift (read_header mem buf (buflen % 2 ^ 32) env.junk)
  desc ← lift (read_config_desc mem buf (buflen % 2 ^ 32) cfg0.desc)
  let n = desc.b_num_interfaces
  let cfg = record cfg0 { desc = desc }
  return_if (ltb 32 n) (platform_failure, cfg)
  return_if (not (env.alloc (interface_array n)))
      (platform_failure, record cfg { interfaces = null })
  skipped ← lift (
      skip_extra checked_loop mem (suc (length mem)) (record {
        buf = buf + h.b_length;
        buflen = wrap_sub (2 ^ 64) buflen h.b_length;
        parsed = 0;
        extra_len = 0;
        header = h;
      }))
  sk ← some_or skipped (platform_failure, dropped cfg n)
  copied ← lift (copy_extra env.alloc mem (buf + h.b_length) sk.extra_len)
  extra ←
      some_or copied
        (parse_error, with_interfaces (record cfg { extra = null }) (replicate n zero_interface))
  pure (record {
    buf = sk.buf;
    buflen = sk.buflen;
    cfg =
        if sk.extra_len == 0
        then record cfg { extra = null }
        else record cfg { extra = extra; extralen = sk.extra_len };
  })

-- `buf` is never null in the callers; `cfg` comes zeroed, as the caller's calloc left it.
unfoldable pub usbi_parse_configuration : Env → List ℕ → ℕ → Config → ℕ → ℕ → Run ConfigOut
usbi_parse_configuration env mem fuel cfg buf buflen =
    body (config_head env mem cfg buf buflen)
      (λ c. interfaces_loop env mem fuel c.cfg c.cfg.desc.b_num_interfaces c.buf c.buflen [])
