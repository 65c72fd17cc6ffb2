-- ===== src/Descriptors/SkipRoundTrip.antt =====
-- The skipping loops pass over exactly the specific descriptors, whichever loop it is.
use libopenusb.Prelude.{
  length, length-append, Holds, Holds-append, ℕ, zero, suc, ◌+◌, ◌-◌, ◌%◌, ◌≤◌, ◌<◌, ◌≡◌, subst,
  ◌∙◌, ◌⊎◌, inl, inr, true, some, List, [], ◌∷◌, ◌++◌, arith,
}
use libopenusb.Run.{ok}
use native.Mathlib.Nat.{add-zero, sub-zero}
use libopenusb.Descriptors.{Header, is_proper, wrap_sub}
use libopenusb.Descriptors.Tree.{ExtraDesc, encode_extra, encode_extras, ExtraOk, All}
use libopenusb.Descriptors.Skip.{Skip, Loop, skip_extra}
use libopenusb.Descriptors.Reading.{read_header-Holds}
use native.Mathlib.Nat.{add-zero, sub-zero}

-- What ends a run of specific descriptors, `n` bytes before the end of the buffer: fewer than two
-- bytes, or a standard descriptor that fits.
abbrev pub Stops : List ℕ → ℕ → ℕ → Type 0
Stops mem p n =
    (n < 2) ⊎ ((b t : ℕ) × Holds mem p (b ∷ t ∷ []) × (is_proper t ≡ true) × (2 ≤ b) × (b ≤ n))

pub Stops-at : (mem : List ℕ) {p q n m : ℕ} → Stops mem p n → p ≡ q → n ≡ m → Stops mem q m
Stops-at mem {p} {q} {n} {m} e pe ne =
    subst (λ x. Stops mem x m) pe (subst (λ x. Stops mem p x) ne e)

-- The state after the run.
abbrev pub skipped : Skip → ℕ → Header → Skip
skipped s n h = record {
  buf = s.buf + n;
  buflen = s.buflen - n;
  parsed = s.parsed + n;
  extra_len = s.extra_len + n;
  header = h;
}

skip_stop :
    (l : Loop) (mem : List ℕ) (fuel : ℕ) (s : Skip)
    → Stops mem s.buf s.buflen
    → (h : Header) × (skip_extra l mem (suc fuel) s ≡ ok (some (skipped s 0 h)))
unfolding skip_extra
skip_stop l mem fuel s (inl few) = (s.header, ground arith)
skip_stop l mem fuel s (inr (b, t, h, proper, two, fits)) = (
  record { b_length = b; b_descriptor_type = t },
  ground (arith, read_header-Holds mem s.buf s.buflen b t s.header h (omega arith)),
)

mod-add_self : (x m : ℕ) → x < m → (x + m) % m ≡ x
mod-add_self x m h = grind arith

-- Without a borrow the difference is the one of the numbers.
pub wrap_sub_lem : (m a b : ℕ) → b ≤ a → a < m → wrap_sub m a b ≡ a - b
wrap_sub_lem m a b le lt =
    let e : a + m - b ≡ (a - b) + m = omega arith in rw e (mod-add_self (a - b) m (omega arith))

-- One round passes over one descriptor.
skip_one :
    (l : Loop) (mem : List ℕ) (fuel : ℕ) (s : Skip) (x : ExtraDesc)
    → ExtraOk x
    → Holds mem s.buf (encode_extra x)
    → length (encode_extra x) ≤ s.buflen
    → s.buflen < l.modulus
    → skip_extra l mem (suc fuel) s
      ≡ skip_extra l mem fuel (
          skipped s
            (length (encode_extra x))
            (record { b_length = length x.payload + 2; b_descriptor_type = x.kind }))
unfolding skip_extra
skip_one l mem fuel s x v h n m =
    let wrap : wrap_sub l.modulus s.buflen (length x.payload + 2)
        ≡ s.buflen - (length x.payload + 2) =
      wrap_sub_lem l.modulus s.buflen (length x.payload + 2) (omega arith) m in
    ground (
      arith,
      wrap,
      read_header-Holds mem s.buf s.buflen (length x.payload + 2) x.kind s.header (h.0, (h.1.0, tt))
          (omega arith),
    )

-- The skipping loop, of either kind, passes over a run of specific descriptors that the buffer holds,
-- up to a standard descriptor that fits or less than a header, and moves its pointer, its lengths
-- and its count of extra bytes by their bytes, given more fuel than descriptors.
pub skip_extra-encode :
    (l : Loop) (mem : List ℕ) (xs : List ExtraDesc) (fuel : ℕ) (s : Skip)
    → All ExtraOk xs
    → Holds mem s.buf (encode_extras xs)
    → length (encode_extras xs) ≤ s.buflen
    → s.buflen < l.modulus
    → Stops mem (s.buf + length (encode_extras xs)) (s.buflen - length (encode_extras xs))
    → length xs < fuel
    → (h : Header) × (skip_extra l mem fuel s ≡ ok (some (skipped s (length (encode_extras xs)) h)))
skip_extra-encode l mem xs zero s v h n m e f = absurd (omega arith)
skip_extra-encode l mem [] (suc fuel) s v h n m e f =
    skip_stop l mem fuel s (rw (add-zero, sub-zero) at e)
skip_extra-encode l mem (x ∷ xs) (suc fuel) s v h n m e f =
    let one = length (encode_extra x) in
    let rest = length (encode_extras xs) in
    let both : length (encode_extra x ++ encode_extras xs) ≡ one + rest =
      length-append (encode_extra x) (encode_extras xs) in
    let parts = Holds-append mem (encode_extra x) (encode_extras xs) s.buf h in
    let s' =
      skipped s one (record { b_length = length x.payload + 2; b_descriptor_type = x.kind }) in
    let ih =
      skip_extra-encode l mem xs fuel s' v.1 parts.1 (omega arith) (omega arith)
        (Stops-at mem e (omega arith) (omega arith)) (omega arith) in
    (ih.0, skip_one l mem fuel s x v.0 parts.0 (omega arith) m ∙ ih.1 ∙ ground (arith, both))
