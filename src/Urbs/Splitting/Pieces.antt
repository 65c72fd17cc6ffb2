-- ===== src/Urbs/Splitting/Pieces.antt =====
-- The URBs of a bulk or interrupt transfer make up its payload (openusb/src/linux.c).
use libopenusb.Prelude.{
  pos, ℕ, zero, suc, ◌+◌, ◌-◌, ◌*◌, ◌^◌, ◌≤◌, ◌<◌, ◌≡◌, refl, sym, subst, ◌≢◌, ◌⊎◌, inl, inr, Bool,
  Option, none, List, [], ◌∷◌, arith,
}
use libopenusb.Codes.{success}
use libopenusb.Timeouts.{IoStatus, in_progress}
use libopenusb.Urbs.{Discard}
use libopenusb.Urbs.Splitting.{
  max_bulk_intr_xfer, RequestType, bulk, interrupt, other_type, BulkRequest, BulkUrb, urbs_needed,
  setup_urb, submit_from, after_submit, linux_submit_bulk_intr,
}

-- The URBs' buffers follow one another from `start` to `finish`, each with 1 to 16,384 bytes.
unfoldable pub Contiguous : ℕ → ℕ → List BulkUrb → Type 0
Contiguous start finish [] = start ≡ finish
Contiguous start finish (u ∷ us) =
    (u.offset ≡ pos start)
    × (0 < u.piece_length)
    × (u.piece_length ≤ max_bulk_intr_xfer)
    × Contiguous (start + u.piece_length) finish us

pub count-bounds :
    (total : ℕ) → (urbs_needed total * 16384 < total + 16384) × (total ≤ urbs_needed total * 16384)
unfolding urbs_needed
count-bounds total = (ground arith, ground arith)

last-piece :
    (supports : Bool) (req : BulkRequest) (i : ℕ)
    → i + 1 ≡ urbs_needed req.payload_length
    → (setup_urb supports req (urbs_needed req.payload_length) i).piece_length
      ≡ req.payload_length - i * 16384
unfolding setup_urb urbs_needed
last-piece supports req i e = ground arith

inner-piece :
    (supports : Bool) (req : BulkRequest) (count i : ℕ)
    → i + 1 < count
    → (setup_urb supports req count i).piece_length ≡ 16384
unfolding setup_urb
inner-piece supports req count i b = ground arith

setup_urb-offset :
    (supports : Bool) (req : BulkRequest) (count i : ℕ)
    → i * 16384 < 2 ^ 31
    → (setup_urb supports req count i).offset ≡ pos (i * 16384)
unfolding setup_urb
setup_urb-offset supports req count i b = ground arith

pub submit_from-taken :
    (answer : ℕ → Option ℕ) (supports : Bool) (req : BulkRequest) (count n i : ℕ)
    → answer i ≡ none
    → submit_from answer supports req count (suc n) i ≡ (
      setup_urb supports req count i ∷ (submit_from answer supports req count n (i + 1)).0,
      (submit_from answer supports req count n (i + 1)).1,
    )
unfolding submit_from
submit_from-taken answer supports req count n i e = rw (e, submit_from) refl

submit_from-all :
    (answer : ℕ → Option ℕ) (supports : Bool) (req : BulkRequest) (count n i : ℕ)
    → ((j : ℕ) → answer j ≡ none)
    → (submit_from answer supports req count n i).1 ≡ none
unfolding submit_from
submit_from-all answer supports req count zero i all = refl
submit_from-all answer supports req count (suc n) i all =
    rw (submit_from-taken answer supports req count n i (all i))
      (submit_from-all answer supports req count n (i + 1) all)

submit_from-Contiguous :
    (answer : ℕ → Option ℕ) (supports : Bool) (req : BulkRequest) (n i : ℕ)
    → ((j : ℕ) → answer j ≡ none)
    → req.payload_length < 2 ^ 31
    → i + suc n ≡ urbs_needed req.payload_length
    → Contiguous
        (i * 16384)
        req.payload_length
        (submit_from answer supports req (urbs_needed req.payload_length) (suc n) i).0
unfolding submit_from Contiguous
submit_from-Contiguous answer supports req zero i all small e =
    let bounds = count-bounds req.payload_length in
    let piece = last-piece supports req i e in
    rw
      (submit_from-taken answer supports req (urbs_needed req.payload_length) zero i (all i), piece)
      (
        setup_urb-offset supports req (urbs_needed req.payload_length) i (omega (arith, bounds)),
        omega (arith, bounds),
        omega (arith, bounds),
        omega (arith, bounds),
      )
submit_from-Contiguous answer supports req (suc n) i all small e =
    let bounds = count-bounds req.payload_length in
    let piece = inner-piece supports req (urbs_needed req.payload_length) i (omega arith) in
    let next : (i + 1) * 16384 ≡ i * 16384 + 16384 = omega arith in
    let rest = submit_from-Contiguous answer supports req n (i + 1) all small (omega arith) in
    rw
      (
        submit_from-taken answer supports req (urbs_needed req.payload_length) (suc n) i (all i),
        piece,
      )
      (
        setup_urb-offset supports req (urbs_needed req.payload_length) i (omega (arith, bounds)),
        omega arith,
        omega arith,
        rw (sym next) rest,
      )

taken-Contiguous :
    (answer : ℕ → Option ℕ) (supports : Bool) (req : BulkRequest)
    → ((j : ℕ) → answer j ≡ none)
    → req.payload_length < 2 ^ 31
    → (n : ℕ) → urbs_needed req.payload_length ≡ n
    → Contiguous 0 req.payload_length
        (submit_from answer supports req (urbs_needed req.payload_length) n 0).0
unfolding Contiguous submit_from
taken-Contiguous answer supports req all small zero e =
    let bounds = count-bounds req.payload_length in omega (arith, bounds)
taken-Contiguous answer supports req all small (suc n) e =
    submit_from-Contiguous answer supports req n 0 all small (omega (arith, e))

RequestType-cases : (t : RequestType) → t ≢ other_type → (t ≡ bulk) ⊎ (t ≡ interrupt)
RequestType-cases bulk known = inl refl
RequestType-cases interrupt known = inr refl
RequestType-cases other_type known = absurd (known refl)

pub submit-after :
    (answer : ℕ → Option ℕ) (kernel : ℕ → Discard) (supports : Bool) (req : BulkRequest)
    (status : IoStatus)
    → req.request_type ≢ other_type
    → linux_submit_bulk_intr answer kernel supports req status
      ≡ after_submit kernel supports req (urbs_needed req.payload_length) (
          submit_from answer supports req
            (urbs_needed req.payload_length)
            (urbs_needed req.payload_length)
            0)
unfolding linux_submit_bulk_intr
submit-after answer kernel supports req status known =
    elim (RequestType-cases req.request_type known) [
      | inl e ↦ rw (e, linux_submit_bulk_intr) refl
      | inr e ↦ rw (e, linux_submit_bulk_intr) refl
    ]

after_submit-all :
    (kernel : ℕ → Discard) (supports : Bool) (req : BulkRequest) (count : ℕ)
    (taken : List BulkUrb × Option (ℕ × ℕ))
    → taken.1 ≡ none
    → let result = after_submit kernel supports req count taken in
      (result.io_status ≡ in_progress) × (result.code ≡ success) × (result.submitted ≡ taken.0)
unfolding after_submit
after_submit-all kernel supports req count (urbs, failure) e =
    rw (e, after_submit) (refl, refl, refl)

-- A bulk or interrupt transfer of less than 2^31 bytes, of which the kernel takes every URB, is in
-- progress and is answered with success; the buffers of its URBs follow one another, each with 1 to
-- 16,384 bytes, from the start of the payload to its end.
pub linux_submit_bulk_intr-Contiguous :
    (answer : ℕ → Option ℕ) (kernel : ℕ → Discard) (supports : Bool) (req : BulkRequest)
    (status : IoStatus)
    → req.request_type ≢ other_type
    → ((j : ℕ) → answer j ≡ none)
    → req.payload_length < 2 ^ 31
    → let result = linux_submit_bulk_intr answer kernel supports req status in
      (result.io_status ≡ in_progress)
      × (result.code ≡ success)
      × Contiguous 0 req.payload_length result.submitted
linux_submit_bulk_intr-Contiguous answer kernel supports req status known all small =
    let n = urbs_needed req.payload_length in
    let taken = submit_from answer supports req n n 0 in
    let ends =
      after_submit-all kernel supports req n taken
        (submit_from-all answer supports req n n 0 all) in
    rw (submit-after answer kernel supports req status known) (
      ends.0,
      ends.1,
      subst (λ us. Contiguous 0 req.payload_length us) (sym ends.2)
          (taken-Contiguous answer supports req all small n refl),
    )
