-- ===== src/ParseData.antt =====
-- `openusb_parse_data` of openusb/src/descriptors.c. The block that `source` points into is a list
-- of bytes and a pointer is an offset in it; `dest` is an address, of which only the alignment
-- counts; what the code stores there is the list of its stores, oldest first.
pub mod Layout
pub mod Alignment
pub mod Total
pub mod Bounds
pub mod Overruns
pub mod Prefixes
use libopenusb.Prelude.{
  ℕ, ◌+◌, ◌-◌, ◌*◌, ◌/◌, ◌%◌, ◌^◌, Bool, true, ◌||◌, Option, none, some, List, [], ◌∷◌, ◌++◌, ltb,
  ◌==◌, if◌then◌else◌, ℤ,
}
use libopenusb.Codes.{success, no_resources, badarg}
use libopenusb.Run.{Run, ok, fault, no_fuel, ◌>>=◌, load}

abbrev pub u32_mod : ℕ
u32_mod = 2 ^ 32

-- A store through `dp`: a number of so many bytes in CPU order, or bytes copied as they are.
pub data Stored : Type 0 where
  num : ℕ → ℕ → Stored
  raw : List ℕ → Stored

pub record Store : Type 0 where
  pub at : ℕ
  pub value : Stored

-- The local variables of the loop.
pub record Cursor : Type 0 where
  pub sp : ℕ
  pub dp : ℕ
  pub sourcelen : ℕ
  pub destlen : ℕ
  pub stores : List Store

-- After one character: the loop goes on, or the function returns.
pub data Next : Type 0 where
  go : Cursor → Next
  stop : Cursor → Next

-- dp += (unsigned long)dp & 1
abbrev pub align_word : ℕ → ℕ
align_word dp = dp + dp % 2

-- dp += (unsigned long)dp & 2
abbrev pub align_dword : ℕ → ℕ
align_dword dp = dp + dp / 2 % 2 * 2

abbrev pub short : Cursor → ℕ → Bool
short c n = ltb c.sourcelen n || ltb c.destlen n

abbrev pub store : Cursor → ℕ → ℕ → Stored → Cursor
store c dp n v = record {
  sp = c.sp + n;
  dp = dp + n;
  sourcelen = c.sourcelen - n;
  destlen = c.destlen - n;
  stores = c.stores ++ (record { at = dp; value = v } ∷ []);
}

-- case '.': sourcelen is a uint32_t and is not tested before it is decremented
unfoldable pub skip_byte : Cursor → Cursor
skip_byte c = record c { sp = c.sp + 1; sourcelen = (c.sourcelen + u32_mod - 1) % u32_mod }

-- case 'b'
unfoldable pub take_byte : List ℕ → Cursor → Run Next
take_byte mem c =
    if short c 1 then ok (stop c) else do b ← load mem c.sp; ok (go (store c c.dp 1 (num 1 b)))

-- case 'w'
unfoldable pub take_word : List ℕ → Cursor → Run Next
take_word mem c = if short c 2 then ok (stop c) else do
  b0 ← load mem c.sp
  b1 ← load mem (c.sp + 1)
  ok (go (store c (align_word c.dp) 2 (num 2 (b1 * 256 + b0))))

-- case 'd'
unfoldable pub take_dword : List ℕ → Cursor → Run Next
take_dword mem c = if short c 4 then ok (stop c) else do
  b0 ← load mem c.sp
  b1 ← load mem (c.sp + 1)
  b2 ← load mem (c.sp + 2)
  b3 ← load mem (c.sp + 3)
  ok (go (store c (align_dword c.dp) 4 (num 4 (b3 * 2 ^ 24 + b2 * 2 ^ 16 + b1 * 2 ^ 8 + b0))))

-- case 'W'
unfoldable pub copy_word : List ℕ → Cursor → Run Next
copy_word mem c = if short c 2 then ok (stop c) else do
  b0 ← load mem c.sp
  b1 ← load mem (c.sp + 1)
  ok (go (store c (align_word c.dp) 2 (raw (b0 ∷ b1 ∷ []))))

-- case 'D'
unfoldable pub copy_dword : List ℕ → Cursor → Run Next
copy_dword mem c = if short c 4 then ok (stop c) else do
  b0 ← load mem c.sp
  b1 ← load mem (c.sp + 1)
  b2 ← load mem (c.sp + 2)
  b3 ← load mem (c.sp + 3)
  ok (go (store c (align_dword c.dp) 4 (raw (b0 ∷ b1 ∷ b2 ∷ b3 ∷ []))))

-- The switch; a character that it does not name is passed over.
unfoldable pub parse_step : List ℕ → ℕ → Cursor → Run Next
unfolding skip_byte take_byte take_word take_dword copy_word copy_dword
parse_step mem ch c =
    if ch == b'.'
    then ok (go (skip_byte c))
    else if ch == b'b'
    then take_byte mem c
    else if ch == b'w'
    then take_word mem c
    else if ch == b'd'
    then take_dword mem c
    else if ch == b'W'
    then copy_word mem c
    else if ch == b'D'
    then copy_dword mem c
    else ok (go c)

-- The loop over the format, to the cursor at its end.
unfoldable pub parse_loop : List ℕ → List ℕ → Cursor → Run Next
parse_loop mem [] c = ok (go c)
parse_loop mem (ch ∷ format) c = elim (parse_step mem ch c) [
  | ok (go c') ↦ parse_loop mem format c'
  | ok (stop c') ↦ ok (stop c')
  | fault ↦ fault
  | no_fuel ↦ no_fuel
]

-- What the caller sees: the result, the stores made, and `*count` where it was written.
pub record Parsed : Type 0 where
  pub ret : ℤ
  pub stores : List Store
  pub count : Option ℕ

unfoldable pub finish : ℕ → Next → Parsed
finish source (stop c) = record { ret = no_resources; stores = c.stores; count = none }
finish source (go c) = record { ret = success; stores = c.stores; count = some (c.sp - source) }

abbrev bad : Parsed
bad = record { ret = badarg; stores = []; count = none }

-- `none` is a null pointer; the flag says whether `count` is not null.
unfoldable pub openusb_parse_data :
    Option (List ℕ) → List ℕ → Option ℕ → ℕ → Option ℕ → ℕ → Bool → Run Parsed
unfolding finish
openusb_parse_data (some format) mem (some source) sourcelen (some dest) destlen true = do
  next ←
      parse_loop mem format
        (record { sp = source; dp = dest; sourcelen = sourcelen; destlen = destlen; stores = [] })
  ok (finish source next)
openusb_parse_data _ mem _ sourcelen _ destlen _ = ok bad

abbrev number : Stored → ℕ → ℕ
number (num n v) old = v
number (raw bs) old = old

-- The member of a structure at an offset, after the stores of a format of `b`, `w` and `d`: the
-- last store there, or what the member held before.
abbrev pub member : ℕ → ℕ → List Store → ℕ
member old at [] = old
member old at (s ∷ ss) = member (if s.at == at then number s.value old else old) at ss
