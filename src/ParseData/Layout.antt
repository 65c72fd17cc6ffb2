-- ===== src/ParseData/Layout.antt =====
-- `openusb_parse_data` against the format's meaning: a list of little-endian fields, encoded into
-- bytes and laid out in the destination.
use libopenusb.Prelude.{
  ℕ, ◌+◌, ◌-◌, ◌/◌, ◌%◌, ◌^◌, ◌≤◌, ◌<◌, ◌≡◌, true, some, List, [], ◌∷◌, ◌++◌, arith, length, Holds,
  Holds-at, ap, ◌∙◌,
}
use mathlib.Core.List.{append-nil, append_assoc}
use libopenusb.Codes.{success}
use libopenusb.Run.{ok, load}
use libopenusb.ParseData.{
  num, Store, Cursor, go, align_word, align_dword, parse_step, parse_loop, openusb_parse_data,
}

-- A field of a descriptor, with the value that it holds. A byte's value is a byte of the block.
pub data Field : Type 0 where
  byte word dword : ℕ → Field

abbrev pub InRange : List Field → Type 0
InRange [] = Unit
InRange (byte v ∷ fs) = InRange fs
InRange (word v ∷ fs) = (v < 2 ^ 16) × InRange fs
InRange (dword v ∷ fs) = (v < 2 ^ 32) × InRange fs

abbrev pub format_of : List Field → List ℕ
format_of [] = []
format_of (byte v ∷ fs) = b'b' ∷ format_of fs
format_of (word v ∷ fs) = b'w' ∷ format_of fs
format_of (dword v ∷ fs) = b'd' ∷ format_of fs

-- The bytes on the wire, the lowest first.
abbrev pub encode : List Field → List ℕ
encode [] = []
encode (byte v ∷ fs) = v ∷ encode fs
encode (word v ∷ fs) = (v % 256) ∷ (v / 256) ∷ encode fs
encode (dword v ∷ fs) =
    (v % 256) ∷ (v / 2 ^ 8 % 256) ∷ (v / 2 ^ 16 % 256) ∷ (v / 2 ^ 24) ∷ encode fs

-- Where the fields go from address `dp` on, by the alignment of the code; ParseData.Alignment compares
-- it with that of a structure.
abbrev pub layout : ℕ → List Field → List Store
layout dp [] = []
layout dp (byte v ∷ fs) = record { at = dp; value = num 1 v } ∷ layout (dp + 1) fs
layout dp (word v ∷ fs) =
    record { at = align_word dp; value = num 2 v } ∷ layout (align_word dp + 2) fs
layout dp (dword v ∷ fs) =
    record { at = align_dword dp; value = num 4 v } ∷ layout (align_dword dp + 4) fs

abbrev end_of : ℕ → List Field → ℕ
end_of dp [] = dp
end_of dp (byte v ∷ fs) = end_of (dp + 1) fs
end_of dp (word v ∷ fs) = end_of (align_word dp + 2) fs
end_of dp (dword v ∷ fs) = end_of (align_dword dp + 4) fs

-- The cursor after the fields have been read.
abbrev after : Cursor → List Field → Cursor
after c fs = record {
  sp = c.sp + length (encode fs);
  dp = end_of c.dp fs;
  sourcelen = c.sourcelen - length (encode fs);
  destlen = c.destlen - length (encode fs);
  stores = c.stores ++ layout c.dp fs;
}

module _ (mem : List ℕ) where
  step-byte :
      (v : ℕ) (c : Cursor)
      → Holds mem c.sp (encode (byte v ∷ []))
      → 1 ≤ c.sourcelen
      → 1 ≤ c.destlen
      → parse_step mem b'b' c ≡ ok (go (after c (byte v ∷ [])))
  unfolding parse_step load
  step-byte v c h s d = ground arith

  step-word :
      (v : ℕ) (c : Cursor)
      → v < 2 ^ 16
      → Holds mem c.sp (encode (word v ∷ []))
      → 2 ≤ c.sourcelen
      → 2 ≤ c.destlen
      → parse_step mem b'w' c ≡ ok (go (after c (word v ∷ [])))
  unfolding parse_step load
  step-word v c r h s d = ground arith

  step-dword :
      (v : ℕ) (c : Cursor)
      → v < 2 ^ 32
      → Holds mem c.sp (encode (dword v ∷ []))
      → 4 ≤ c.sourcelen
      → 4 ≤ c.destlen
      → parse_step mem b'd' c ≡ ok (go (after c (dword v ∷ [])))
  unfolding parse_step load
  step-dword v c r h s d = ground arith

  abbrev Reads : Cursor → List Field → Type 0
  Reads c fs = parse_loop mem (format_of fs) c ≡ ok (go (after c fs))

  after-cons :
      (c : Cursor) (f : Field) (fs : List Field) → after (after c (f ∷ [])) fs ≡ after c (f ∷ fs)
  after-cons c (byte v) fs =
      ground (arith, append_assoc c.stores (layout c.dp (byte v ∷ [])) (layout (c.dp + 1) fs))
  after-cons c (word v) fs =
      ground
        (arith, append_assoc c.stores (layout c.dp (word v ∷ [])) (layout (align_word c.dp + 2) fs))
  after-cons c (dword v) fs =
      ground (
        arith,
        append_assoc c.stores (layout c.dp (dword v ∷ [])) (layout (align_dword c.dp + 4) fs),
      )

  -- The loop reads the fields that the memory holds, whatever follows them.
  pub parse_loop-encode :
      (fs : List Field) (c : Cursor)
      → InRange fs
      → Holds mem c.sp (encode fs)
      → length (encode fs) ≤ c.sourcelen
      → length (encode fs) ≤ c.destlen
      → parse_loop mem (format_of fs) c ≡ ok (go (after c fs))
  unfolding parse_loop
  parse_loop-encode [] c r h s d = ground (arith, append-nil c.stores)
  parse_loop-encode (byte v ∷ fs) c r h s d =
      rw (step-byte v c (h.0, tt) (omega arith) (omega arith), parse_loop)
        (parse_loop-encode fs (after c (byte v ∷ [])) r h.1 (omega arith) (omega arith)
          ∙ ap (λ x. ok (go x)) (after-cons c (byte v) fs))
  parse_loop-encode (word v ∷ fs) c r h s d =
      rw (step-word v c r.0 (h.0, (h.1.0, tt)) (omega arith) (omega arith), parse_loop)
        (parse_loop-encode fs (after c (word v ∷ [])) r.1
            (Holds-at mem (encode fs) h.1.1 (omega arith)) (omega arith) (omega arith)
          ∙ ap (λ x. ok (go x)) (after-cons c (word v) fs))
  parse_loop-encode (dword v ∷ fs) c r h s d =
      rw
        (
          step-dword v c r.0 (h.0, (h.1.0, (h.1.1.0, (h.1.1.1.0, tt)))) (omega arith) (omega arith),
          parse_loop,
        )
        (parse_loop-encode fs (after c (dword v ∷ [])) r.1
            (Holds-at mem (encode fs) h.1.1.1.1 (omega arith)) (omega arith) (omega arith)
          ∙ ap (λ x. ok (go x)) (after-cons c (dword v) fs))

-- `openusb_parse_data` decodes what was encoded: where every word and dword is in range, the block
-- holds the encoding of the fields at `source`, and both lengths suffice, it returns success, has
-- counted the encoding's bytes, and has stored every field's value where `layout` has it, in order,
-- and nothing else.
pub parse_data-encode :
    (mem : List ℕ) (fs : List Field) (source sourcelen dest destlen : ℕ)
    → InRange fs
    → Holds mem source (encode fs)
    → length (encode fs) ≤ sourcelen
    → length (encode fs) ≤ destlen
    → openusb_parse_data (some (format_of fs)) mem (some source) sourcelen (some dest) destlen true
      ≡ ok (record { ret = success; stores = layout dest fs; count = some (length (encode fs)) })
unfolding openusb_parse_data
parse_data-encode mem fs source sourcelen dest destlen r h s d =
    let c : Cursor = record {
      sp = source;
      dp = dest;
      sourcelen = sourcelen;
      destlen = destlen;
      stores = [];
    } in
    ground (arith, parse_loop-encode mem fs c r h s d)
