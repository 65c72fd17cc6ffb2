-- ===== src/ParseData/Total.antt =====
-- `openusb_parse_data` on formats without a `.`: when it succeeds, and that it reads only the bytes
-- that `sourcelen` grants.

use libopenusb.Prelude.{
  leb, ◌==◌, if◌then◌else◌, length, get_elem?, get_elem?-lt, ℕ, ◌+◌, ◌-◌, ◌≤◌, ◌<◌, ◌≡◌, refl, sym,
  ◌⊎◌, inl, inr, Bool, true, false, ◌&&◌, ◌||◌, Option, none, some, List, [], ◌∷◌, arith,
}
use libopenusb.Codes.{success, no_resources}
use libopenusb.Run.{Run, ok, fault, no_fuel, load}
use libopenusb.ParseData.{
  Cursor, Next, go, stop, short, parse_step, parse_loop, Parsed, finish, openusb_parse_data,
}

-- The bytes that a character of the format stands for.
abbrev pub width : ℕ → ℕ
width ch =
    if ch == b'b'
    then 1
    else if ch == b'w' || ch == b'W'
    then 2
    else if ch == b'd' || ch == b'D'
    then 4
    else 0

abbrev pub need : List ℕ → ℕ
need [] = 0
need (ch ∷ format) = width ch + need format

abbrev pub Undotted : List ℕ → Type 0
Undotted [] = Unit
Undotted (ch ∷ format) = ((ch == b'.') ≡ false) × Undotted format

abbrev pub fits : List ℕ → ℕ → ℕ → Bool
fits format sourcelen destlen = leb (need format) sourcelen && leb (need format) destlen

-- What the loop's tests read of a cursor; `none` once the function has stopped for lack of room.
abbrev view : Next → Option (ℕ × ℕ × ℕ)
view (go c) = some (c.sp, c.sourcelen, c.destlen)
view (stop c) = none

abbrev Views : Run Next → Option (ℕ × ℕ × ℕ) → Type 0
Views (ok n) v = view n ≡ v
Views fault v = ⊥
Views no_fuel v = ⊥

load-lt : (mem : List ℕ) (i : ℕ) → i < length mem → (b : ℕ) × (load mem i ≡ ok b)
unfolding load
load-lt mem i h = let r = get_elem?-lt mem i h in (r.0, ground arith)

byte_at : List ℕ → ℕ → ℕ
byte_at mem i = elim (get_elem? mem i) [ none ↦ 0 | some b ↦ b ]

load-byte_at : (mem : List ℕ) (i : ℕ) → i < length mem → load mem i ≡ ok (byte_at mem i)
unfolding load byte_at
load-byte_at mem i h = let r = get_elem?-lt mem i h in ground arith

step-Views :
    (mem : List ℕ) (ch : ℕ) (c : Cursor)
    → (ch == b'.') ≡ false
    → c.sp + c.sourcelen ≤ length mem
    → Views (parse_step mem ch c) (
        if short c (width ch)
        then none
        else some (c.sp + width ch, c.sourcelen - width ch, c.destlen - width ch))
unfolding parse_step
step-Views mem ch c u h = ground (
  arith,
  load-byte_at mem c.sp,
  load-byte_at mem (c.sp + 1),
  load-byte_at mem (c.sp + 2),
  load-byte_at mem (c.sp + 3),
)

Views-cases :
    (r : Run Next) (v : Option (ℕ × ℕ × ℕ))
    → Views r v
    → ((c : Cursor) × (r ≡ ok (go c)) × (v ≡ some (c.sp, c.sourcelen, c.destlen)))
      ⊎ ((c : Cursor) × (r ≡ ok (stop c)) × (v ≡ none))
Views-cases (ok (go c)) v h = inl (c, refl, sym h)
Views-cases (ok (stop c)) v h = inr (c, refl, sym h)
Views-cases fault v h = absurd h
Views-cases no_fuel v h = absurd h

parse_loop-Views :
    (mem format : List ℕ) (c : Cursor)
    → Undotted format
    → c.sp + c.sourcelen ≤ length mem
    → Views (parse_loop mem format c) (
        if fits format c.sourcelen c.destlen
        then some (c.sp + need format, c.sourcelen - need format, c.destlen - need format)
        else none)
unfolding parse_loop
parse_loop-Views mem [] c u h = ground arith
parse_loop-Views mem (ch ∷ format) c u h =
    elim (Views-cases (parse_step mem ch c) _ (step-Views mem ch c u.0 h)) [
      | inl (c', e, v) ↦ rw (e, parse_loop) (ground (arith, parse_loop-Views mem format c' u.1))
      | inr (c', e, v) ↦ rw (e, parse_loop) (ground arith)
    ]

-- The items of a format: bytes, words and dwords, in either order.
abbrev pub is_item : ℕ → Bool
is_item ch = ch == b'b' || ch == b'w' || ch == b'd' || ch == b'W' || ch == b'D'

abbrev pub Items : List ℕ → Type 0
Items [] = Unit
Items (ch ∷ format) = (is_item ch ≡ true) × Items format

Items-Undotted : (format : List ℕ) → Items format → Undotted format
Items-Undotted [] h = tt
Items-Undotted (ch ∷ format) h = (ground (arith, h.0), Items-Undotted format h.1)

-- On a format of the items `b`, `w`, `d`, `W` and `D`, over a block that holds the `sourcelen` bytes
-- that the caller grants, `openusb_parse_data` never reads outside the block. It returns success
-- exactly when the bytes that the items stand for fit both lengths, and then counts them; otherwise
-- it returns OPENUSB_NO_RESOURCES and leaves `*count` unwritten.
pub parse_data_total :
    (mem format : List ℕ) (source sourcelen dest destlen : ℕ)
    → Items format
    → source + sourcelen ≤ length mem
    → (p : Parsed) × (openusb_parse_data
          (some format)
          mem
          (some source)
          sourcelen
          (some dest)
          destlen
          true
        ≡ ok p)
      × (p.ret ≡ (if fits format sourcelen destlen then success else no_resources))
      × (p.count ≡ (if fits format sourcelen destlen then some (need format) else none))
unfolding openusb_parse_data
parse_data_total mem format source sourcelen dest destlen items h =
    let u = Items-Undotted format items in
    let c : Cursor = record {
      sp = source;
      dp = dest;
      sourcelen = sourcelen;
      destlen = destlen;
      stores = [];
    } in
    elim (Views-cases (parse_loop mem format c) _ (parse_loop-Views mem format c u h)) [
      | inl (c', e, v) ↦ (finish source (go c'), rw e, ground arith, ground arith)
      | inr (c', e, v) ↦ (finish source (stop c'), rw e, ground arith, ground arith)
    ]
