-- ===== src/Fetch/Outcomes.antt =====
-- What fetching caches for devices whose configurations are well formed, and where a transfer fails.
use libopenusb.Prelude.{
  ltb, length, get_elem?, take, replicate, drop-replicate, get_elem?-replicate, get_elem?-append,
  Holds, Holds-mid, ℤ, pos, negsuc, ℕ, zero, suc, ◌+◌, ◌-◌, ◌*◌, ◌^◌, ◌≤◌, ◌<◌, ◌≡◌, refl, ap, ◌∙◌,
  Bool, true, false, none, some, List, [], ◌∷◌, ◌++◌, map, arith, ◌%◌,
}
use libopenusb.Codes.{platform_failure, type_config}
use libopenusb.Run.{ok}
use libopenusb.ParseData.Layout.{byte, word, parse_data-encode}
use libopenusb.Descriptors.{Header, freed, Config, Block, interface_array, Env, stores_of, wrap_sub}
use libopenusb.Descriptors.Tree.{ConfigTree, encode_config, config_of}
use libopenusb.Descriptors.Reading.{read_header-Holds, read_config_desc-Holds}
use libopenusb.Descriptors.Skip.{checked_loop, skip_extra}
use libopenusb.Descriptors.SkipRoundTrip.{wrap_sub_lem}
use libopenusb.Descriptors.ConfigParser.{zero_config, config_head, usbi_parse_configuration}
use libopenusb.Descriptors.ConfigRoundTrip.{ConfigOk, parse_configuration-encode}
use libopenusb.Descriptors.InterfacesLoop.{raws_interfaces}
use libopenusb.Fetch.{
  Device, usbi_get_descriptor, written, less_int, less_size, RawDesc, spare, total_length,
  fetch_config, fetch_configs,
}

-- A device that sends the configurations, whole or their first 8 bytes.
pub record Sends (device : Device) (i : ℕ) (c : ConfigTree) : Type 0 where
  pub head :
      device (type_config * 256 + i) 8
      ≡ record { ret = pos 0; status = pos 0; sent = take 8 (encode_config c) }
  pub whole :
      device (type_config * 256 + i) (length (encode_config c))
      ≡ record { ret = pos 0; status = pos 0; sent = encode_config c }

total-encode :
    (c : ConfigTree) (stack : List ℕ)
    → ConfigOk c
    → total_length (written (take 8 (encode_config c)) stack) ≡ ok c.desc.w_total_length
unfolding total_length stores_of
total-encode c stack v = rw (
    parse_data-encode (written (take 8 (encode_config c)) stack)
      (byte c.desc.b_length ∷ byte c.desc.b_descriptor_type ∷ word c.desc.w_total_length ∷ []) 0 8 0
      10 (v.total_small, tt) (refl, (refl, (refl, (refl, tt)))) (omega arith) (omega arith))

module _ (device : Device) (i : ℕ) where
  asked_head :
      (c : ConfigTree)
      → device (type_config * 256 + i) 8
        ≡ record { ret = pos 0; status = pos 0; sent = take 8 (encode_config c) }
      → usbi_get_descriptor device type_config i 8 ≡ (pos 8, take 8 (encode_config c))
  unfolding usbi_get_descriptor
  asked_head c e = rw e refl

  asked_whole :
      (c : ConfigTree)
      → Sends device i c
      → usbi_get_descriptor device type_config i (length (encode_config c))
        ≡ (pos (length (encode_config c)), encode_config c)
  unfolding usbi_get_descriptor
  asked_whole c s = ground (arith, s.whole)

  asked_failing :
      (n r : ℕ) (st : ℤ)
      → device (type_config * 256 + i) n ≡ record { ret = negsuc r; status = st; sent = [] }
      → 0 < n
      → usbi_get_descriptor device type_config i n ≡ (platform_failure, [])
  unfolding usbi_get_descriptor
  asked_failing n r st e p = ground (arith, e)

-- The block of a configuration: its bytes, and zeros behind them.
abbrev pub block_of : ConfigTree → List ℕ
block_of c = encode_config c ++ replicate spare 0

-- What is cached for a configuration.
abbrev pub cached : ConfigTree → RawDesc × Config
cached c = (record { bytes = block_of c; len = length (encode_config c) }, config_of c)

written-block :
    (bytes : List ℕ) (n : ℕ)
    → written bytes (replicate (length bytes + n) 0) ≡ bytes ++ replicate n 0
written-block bytes n = ap (λ l. bytes ++ l) (drop-replicate (length bytes) n 0)

one-lt-spare : 1 < spare
unfolding spare
one-lt-spare = omega arith

zero-behind :
    (bytes : List ℕ) → get_elem? (bytes ++ replicate spare 0) (0 + length bytes + 1) ≡ some 0
zero-behind bytes =
    ap (λ p. get_elem? (bytes ++ replicate spare 0) p) {x = 0 + length bytes + 1}
      {y = length bytes + 1} (omega arith)
    ∙ get_elem?-append bytes (replicate spare 0) 1
    ∙ get_elem?-replicate spare 1 0 one-lt-spare

module _ (env : Env) (alloc : ℕ → Bool) (device : Device) (stack : List ℕ) (fuel : ℕ)
    (answers : (b : Block) → env.alloc b ≡ true) (grants : (n : ℕ) → alloc n ≡ true) where
  fetch_config-encode :
      (i : ℕ) (c : ConfigTree)
      → ConfigOk c
      → Sends device i c
      → length (raws_interfaces c.interfaces) < fuel
      → fetch_config env alloc device stack fuel i
        ≡ ok (some (record { bytes = block_of c; len = length (encode_config c) }, config_of c))
  unfolding fetch_config less_int less_size
  fetch_config-encode i c v s f =
      let n = length (encode_config c) in
      let parse =
        parse_configuration-encode env (block_of c) answers c 0 0 fuel v
          (Holds-mid [] (encode_config c) (replicate spare 0)) (zero-behind (encode_config c))
          (omega arith) f in
      let not_short : ltb n n ≡ false = ground arith in
      let total = total-encode c stack v ∙ ap ok v.total in
      rw
        (
          asked_head device i c s.head,
          total,
          grants (n + spare),
          asked_whole device i c s,
          not_short,
          written-block (encode_config c) spare,
          parse,
        )
        refl

  abbrev pub AllSent : ℕ → List ConfigTree → Type 0
  AllSent i [] = Unit
  AllSent i (c ∷ cs) =
      ConfigOk c
      × Sends device i c
      × (length (raws_interfaces c.interfaces) < fuel)
      × AllSent (i + 1) cs

  -- Where `calloc` answers and the device sends its configurations from `i` on, whole and their
  -- first 8 bytes, each well formed and with fuel for its descriptors, the loop of
  -- `usbi_fetch_and_parse_descriptors` caches their bytes, with zeros behind them, and the
  -- structures of their trees, in order.
  pub fetch_configs-encode :
      (i : ℕ) (cs : List ConfigTree)
      → AllSent i cs
      → fetch_configs env alloc device stack fuel i (length cs) ≡ ok (some (map cached cs))
  unfolding fetch_configs
  fetch_configs-encode i [] h = refl
  fetch_configs-encode i (c ∷ cs) h =
      rw (fetch_config-encode i c h.0 h.1 h.2, fetch_configs-encode (i + 1) cs h.3) refl

abbrev pub zeros : ℕ → List ℕ
zeros n = replicate n 0

zeros-Holds : (n p k : ℕ) → p + k ≤ n → Holds (zeros n) p (zeros k)
zeros-Holds n p zero h = tt
zeros-Holds n p (suc k) h =
    (get_elem?-replicate n p 0 (omega arith), zeros-Holds n (p + 1) k (omega arith))

-- What a configuration of zeros leaves: an error, and a pointer to freed interfaces.
abbrev pub ruined : Config
ruined = record zero_config { interfaces = freed }

skip-zeros :
    (m n : ℕ) (h : Header)
    → 2 ≤ m
    → 2 ≤ n
    → skip_extra checked_loop
        (zeros m)
        (suc (length (zeros m)))
        (record { buf = 0; buflen = n; parsed = 0; extra_len = 0; header = h })
      ≡ ok none
unfolding skip_extra
skip-zeros m n h two le =
    ground (arith, read_header-Holds (zeros m) 0 n 0 0 h (zeros-Holds m 0 2 two) le)

parse-zeros :
    (env : Env) (m n fuel : ℕ)
    → ((b : Block) → env.alloc b ≡ true)
    → 9 ≤ m
    → 9 ≤ n
    → n < 2 ^ 32
    → usbi_parse_configuration env (zeros m) fuel zero_config 0 n ≡ ok (platform_failure, ruined)
unfolding usbi_parse_configuration config_head
parse-zeros env m n fuel a long le small =
    let mem = zeros m in
    let head =
      read_header-Holds mem 0 (n % 2 ^ 32) 0 0 env.junk (zeros-Holds m 0 2 (omega arith))
        (omega arith) in
    let desc =
      read_config_desc-Holds mem 0 (n % 2 ^ 32) zero_config.desc zero_config.desc (omega arith)
        (zeros-Holds m 0 9 long) (omega arith) in
    let kept : wrap_sub (2 ^ 64) n 0 ≡ n = ground (arith, wrap_sub_lem (2 ^ 64) n 0) in
    let skipped =
      skip-zeros m n (record { b_length = 0; b_descriptor_type = 0 }) (omega arith) (omega arith) in
    ground (arith, head, desc, a (interface_array 0), kept, skipped)

-- A transfer that fails is not noticed: where the device sends the first 8 bytes of a well-formed
-- configuration and then fails to send the whole, the round of the loop goes on as if it had been
-- sent, and caches a configuration of zeros that points to freed interfaces.
pub fetch_config_unnoticed :
    (env : Env) (alloc : ℕ → Bool) (device : Device) (stack : List ℕ) (fuel i r : ℕ) (st : ℤ)
    (c : ConfigTree)
    → ((b : Block) → env.alloc b ≡ true)
    → ((n : ℕ) → alloc n ≡ true)
    → ConfigOk c
    → device (type_config * 256 + i) 8
      ≡ record { ret = pos 0; status = pos 0; sent = take 8 (encode_config c) }
    → device (type_config * 256 + i) (length (encode_config c))
      ≡ record { ret = negsuc r; status = st; sent = [] }
    → fetch_config env alloc device stack fuel i
      ≡ ok (
          some (
            record {
              bytes = zeros (length (encode_config c) + spare);
              len = length (encode_config c);
            },
            ruined,
          ))
unfolding fetch_config less_int less_size
fetch_config_unnoticed env alloc device stack fuel i r st c answers grants v first whole =
    let n = length (encode_config c) in
    let total = total-encode c stack v ∙ ap ok v.total in
    let first_answer = asked_head device i c first in
    let parse =
      parse-zeros env (n + spare) n fuel answers (omega arith) (omega arith) (omega arith) in
    let passes : ltb (2 ^ 64 - 1 - 0) n ≡ false = ground (arith, v.total, v.total_small) in
    rw
      (
        first_answer,
        total,
        grants (n + spare),
        asked_failing device i n r st whole (omega arith),
        passes,
        parse,
      )
      refl
