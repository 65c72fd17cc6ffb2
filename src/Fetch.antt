-- ===== src/Fetch.antt =====
-- The fetching of configurations by `usbi_fetch_and_parse_descriptors` of openusb/src/descriptors.c.
-- The control transfer to the device is a parameter, as what it answers to a descriptor request.
pub mod Outcomes
use libopenusb.Prelude.{
  ltb, ◌==◌, if◌then◌else◌, codes, length, drop, replicate, ℤ, pos, negsuc, is_neg, ℕ, zero, suc,
  ◌+◌, ◌-◌, ◌*◌, ◌^◌, Bool, true, false, not, ◌||◌, Option, none, some, List, [], ◌∷◌, ◌++◌,
}
use libopenusb.Codes.{platform_failure, badarg, type_config}
use libopenusb.Run.{Run, ok, ◌>>=◌}
use libopenusb.ParseData.{member}
use libopenusb.Descriptors.{Config, Env, stores_of}
use libopenusb.Descriptors.ConfigParser.{zero_config, usbi_parse_configuration}

-- What `openusb_ctrl_xfer` leaves: its result, the status, and the bytes that the device has sent.
pub record Answer : Type 0 where
  pub ret : ℤ
  pub status : ℤ
  pub sent : List ℕ

-- By wValue and the length of the payload.
abbrev pub Device : Type 0
Device = ℕ → ℕ → Answer

abbrev pub is_success : ℤ → Bool
is_success (pos n) = n == 0
is_success (negsuc n) = false

-- The result, and the bytes written to the buffer, which the caller does not pass as null.
unfoldable pub usbi_get_descriptor : Device → ℕ → ℕ → ℕ → ℤ × List ℕ
usbi_get_descriptor device type index buflen =
    if buflen == 0
    then (badarg, [])
    else let a = device (type * 256 + index) buflen in
      (
        if is_neg a.ret || not (is_success a.status) then platform_failure else pos (length a.sent),
        a.sent,
      )

-- A buffer after its first bytes have been written.
abbrev pub written : List ℕ → List ℕ → List ℕ
written bytes buf = bytes ++ drop (length bytes) buf

-- ret < n, in int
unfoldable pub less_int : ℤ → ℕ → Bool
less_int (pos r) n = ltb r n
less_int (negsuc r) n = true

-- ret < len, where `len` is a size_t: a negative number is a large one.
unfoldable pub less_size : ℤ → ℕ → Bool
less_size (pos r) n = ltb r n
less_size (negsuc r) n = ltb (2 ^ 64 - 1 - r) n

-- struct usbi_raw_desc
pub record RawDesc : Type 0 where
  pub bytes : List ℕ
  pub len : ℕ

-- The bytes behind the configuration in its block.
unfoldable pub spare : ℕ
spare = 65536

-- cfg_desc.wTotalLength from the first 8 bytes
unfoldable pub total_length : List ℕ → Run ℕ
unfolding stores_of
total_length buf = stores_of (codes "bbw") buf 0 8 10 >>= λ ss. ok (member 0 2 ss)

-- One round of the loop over the configurations; `none` where it goes to `err`. `stack` is what the
-- buffer of 8 bytes holds before, and `alloc` the answer of `calloc` for the block of a length.
unfoldable pub fetch_config :
    Env → (ℕ → Bool) → Device → List ℕ → ℕ → ℕ → Run (Option (RawDesc × Config))
fetch_config env alloc device stack fuel i =
    let first = usbi_get_descriptor device type_config i 8 in
    if less_int first.0 8
    then ok none
    else total_length (written first.1 stack) >>= λ len.
        if not (alloc (len + spare))
        then ok none
        else let whole = usbi_get_descriptor device type_config i len in
          let block = written whole.1 (replicate (len + spare) 0) in
          if less_size whole.0 len
          then ok none
          else usbi_parse_configuration env block fuel zero_config 0 len >>= λ parsed.
              ok (some (record { bytes = block; len = len }, parsed.1))

-- The loop, from configuration `i` on: the blocks and the configurations, or `none`.
unfoldable pub fetch_configs :
    Env → (ℕ → Bool) → Device → List ℕ → ℕ → ℕ → ℕ → Run (Option (List (RawDesc × Config)))
fetch_configs env alloc device stack fuel i zero = ok (some [])
fetch_configs env alloc device stack fuel i (suc n) =
    fetch_config env alloc device stack fuel i >>= λ one. elim one [
      | none ↦ ok none
      | some c ↦ fetch_configs env alloc device stack fuel (i + 1) n >>= λ rest. elim rest [
        | none ↦ ok none
        | some cs ↦ ok (some (c ∷ cs))
      ]
    ]
