-- ===== src/Descriptors/ConfigRoundTrip.antt =====
-- `usbi_parse_configuration` rebuilds a configuration from the bytes that a device sends for it.
use libopenusb.Prelude.{
  sym, map, length, get_elem?, length-append, Holds, Holds-append, length-map, pos, ℕ, suc, ◌+◌,
  ◌-◌, ◌^◌, ◌≤◌, ◌<◌, ◌≡◌, refl, subst, ◌∙◌, ◌≢◌, inl, inr, true, some, List, [], ◌++◌, arith, ◌%◌,
}
use libopenusb.Codes.{type_interface}
use libopenusb.Run.{ok}
use libopenusb.Proc.{next}
use libopenusb.ParseData.Layout.{encode}
use libopenusb.Descriptors.{is_proper, Header, Config, Block, extra_bytes, interface_array, Env}
use libopenusb.Descriptors.Tree.{
  ConfigTree, encode_extras, config_fields, encode_interfaces, encode_config, ExtraOk, All,
  extra_slot, interface_of, config_of,
}
use libopenusb.Descriptors.Reading.{read_header-Holds, read_config_desc-Holds}
use libopenusb.Descriptors.Skip.{Skip, checked_loop, skip_extra}
use libopenusb.Descriptors.SkipRoundTrip.{Stops, Stops-at, skipped, wrap_sub_lem}
use libopenusb.Descriptors.EndpointRoundTrip.{copy_extra-Holds, skip_extra-run}
use libopenusb.Descriptors.ConfigParser.{
  interfaces_loop, with_interfaces, zero_config, config_head, usbi_parse_configuration,
}
use libopenusb.Descriptors.InterfacesLoop.{
  next_ends, IfcOk, raws_interfaces, count_alts, interfaces_loop-encode,
}

-- A well-formed configuration, whose descriptor tells how long it is and how many interfaces it has.
pub record ConfigOk (c : ConfigTree) : Type 0 where
  pub size : c.desc.b_length ≡ 9
  pub total : c.desc.w_total_length ≡ length (encode_config c)
  pub total_small : c.desc.w_total_length < 2 ^ 16
  pub count : c.desc.b_num_interfaces ≡ length c.interfaces
  pub few : length c.interfaces ≤ 32
  pub extras : All ExtraOk c.extras
  pub interfaces : All IfcOk c.interfaces
  pub few_alts : count_alts c.interfaces < 256

module _ (env : Env) (mem : List ℕ) (alloc : (b : Block) → env.alloc b ≡ true) (c : ConfigTree)
    (buf t fuel : ℕ) (v : ConfigOk c) (h : Holds mem buf (encode_config c))
    (slack : get_elem? mem (buf + length (encode_config c) + 1) ≡ some t)
    (slack_type : t ≢ type_interface) (enough : length (raws_interfaces c.interfaces) < fuel) where
  buflen : ℕ
  buflen = length (encode_config c)

  extras : List ℕ
  extras = encode_extras c.extras

  interface_bytes : List ℕ
  interface_bytes = encode_interfaces c.interfaces

  sizes : buflen ≡ 9 + length extras + length interface_bytes
  unfolding buflen extras interface_bytes
  sizes = omega (
    arith,
    length-append (encode (config_fields c.desc)) (extras ++ interface_bytes),
    length-append extras interface_bytes,
  )

  extras-Holds : Holds mem (buf + 9) extras × Holds mem (buf + 9 + length extras) interface_bytes
  unfolding extras interface_bytes
  extras-Holds =
      Holds-append mem extras interface_bytes (buf + 9)
        (Holds-append mem (encode (config_fields c.desc)) (extras ++ interface_bytes) buf h).1

  stops : Stops mem (buf + 9 + length extras) (length interface_bytes)
  unfolding interface_bytes is_proper
  stops =
      elim (next_ends env mem alloc c.interfaces (buf + 9 + length extras) v.interfaces
        extras-Holds.1) [
          | inl none_left ↦ inl (omega arith)
          | inr (b, i, held, two, le) ↦
              inr (b, type_interface, (held.0, (held.1.0, tt)), refl, two, le)
        ]

  start : Skip
  start = record {
    buf = buf + 9;
    buflen = buflen - 9;
    parsed = 0;
    extra_len = 0;
    header = record { b_length = 9; b_descriptor_type = c.desc.b_descriptor_type };
  }

  skips :
      (h' : Header) × (skip_extra checked_loop mem (suc (length mem)) start
        ≡ ok (some (skipped start (length extras) h')))
  unfolding start extras buflen
  skips =
      skip_extra-run checked_loop mem c.extras start v.extras extras-Holds.0 (omega (arith, sizes))
        (omega (arith, v.total, v.total_small)) (Stops-at mem stops refl (omega (arith, sizes)))

  head_cfg : Config
  head_cfg = record zero_config {
    desc = c.desc;
    extra = extra_slot extras;
    extralen = length extras;
  }

  head :
      config_head env mem zero_config buf buflen
      ≡ ok (
          next (record {
            buf = buf + 9 + length extras;
            buflen = length interface_bytes;
            cfg = head_cfg;
          }))
  unfolding config_head start extras buflen head_cfg interface_bytes
  head = ground (
    arith,
    sizes,
    v.total,
    v.total_small,
    v.count,
    v.few,
    v.size,
    read_header-Holds mem buf (buflen % 2 ^ 32) c.desc.b_length c.desc.b_descriptor_type env.junk
        (h.0, (h.1.0, tt)) (omega (arith, sizes)),
    read_config_desc-Holds mem buf (buflen % 2 ^ 32) c.desc zero_config.desc v.total_small
        (Holds-append mem (encode (config_fields c.desc)) (extras ++ interface_bytes) buf h).0
        (omega (arith, sizes)),
    alloc (interface_array c.desc.b_num_interfaces),
    wrap_sub_lem (2 ^ 64) buflen 9 (omega (arith, sizes)) (omega arith),
    skips,
    copy_extra-Holds env.alloc mem extras (buf + 9) (alloc (extra_bytes (length extras)))
        extras-Holds.0,
  )

  -- `usbi_parse_configuration` rebuilds a configuration: where `calloc` answers, the block holds
  -- the encoding of a well-formed tree, the byte after next behind it is not the type of an
  -- interface, and there is fuel for a round on each descriptor, it returns 0, no byte being left,
  -- and the structure of the tree, its interfaces, alternate settings, endpoints and extra bytes.
  pub parse_configuration-encode :
      usbi_parse_configuration env mem fuel zero_config buf (length (encode_config c))
      ≡ ok (pos 0, config_of c)
  unfolding usbi_parse_configuration head_cfg buflen extras interface_bytes
  parse_configuration-encode =
      let loop =
        interfaces_loop-encode env mem alloc fuel head_cfg c.interfaces (buf + 9 + length extras)
          (length interface_bytes) t [] v.interfaces extras-Holds.1 refl
          (omega (arith, sizes, v.total, v.total_small))
          (subst (λ x. get_elem? mem (x + 1) ≡ some t) {x = buf + buflen}
            {y = buf + 9 + length extras + length interface_bytes} (omega (arith, sizes)) slack)
          slack_type v.few_alts enough in
      let counted =
        subst
          (λ n.
            interfaces_loop env mem fuel head_cfg n (buf + 9 + length extras)
              (length interface_bytes) []
            ≡ ok (pos 0, with_interfaces head_cfg (map interface_of c.interfaces)))
          (sym v.count) loop in
      rw head (counted ∙ ground (arith, length-map interface_of c.interfaces))
