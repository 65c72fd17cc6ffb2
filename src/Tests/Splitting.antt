-- ===== src/Tests/Splitting.antt =====
-- A transfer of 40,000 bytes from a bulk endpoint, which needs three URBs.
use libopenusb.Prelude.{
  ℤ, pos, ◌==◌, if◌then◌else◌, length, ℕ, ◌+◌, ◌<◌, ◌≡◌, refl, ◌≢◌, Bool, true, false, Option, none,
  some, [], ◌∷◌, map, arith,
}
use libopenusb.Codes.{success}
use libopenusb.Timeouts.{initial, in_progress}
use libopenusb.Urbs.{Discard, cancelled, failed}
use libopenusb.Urbs.Splitting.{bulk, other_type, BulkRequest, urbs_needed, linux_submit_bulk_intr}
use libopenusb.Urbs.Splitting.Pieces.{Contiguous, linux_submit_bulk_intr-Contiguous}
use libopenusb.Urbs.Splitting.Refusals.{linux_submit_bulk_intr-refused}

abbrev read_40000 : BulkRequest
read_40000 = record { request_type = bulk; endpoint = 129; payload_length = 40000 }

abbrev takes_all : ℕ → Option ℕ
takes_all _ = none

abbrev takes_two : ℕ → Option ℕ
takes_two n = if n == 2 then some 12 else none

abbrev cancels : ℕ → Discard
cancels _ = cancelled

-- Which URBs are submitted
pieces_40000 :
    map {B = ℤ × ℕ × Bool × Bool}
      (λ u. (u.offset, u.piece_length, u.short_not_ok, u.bulk_continuation))
      (linux_submit_bulk_intr takes_all cancels true read_40000 initial).submitted
    ≡ (pos 0, 16384, true, false)
      ∷ (pos 16384, 16384, true, true)
      ∷ (pos 32768, 7232, false, true)
      ∷ []
unfolding linux_submit_bulk_intr
pieces_40000 = refl

-- A transfer without data is in progress, and no URB of it is submitted.
pieces_0 :
    (linux_submit_bulk_intr takes_all cancels true
      (record read_40000 { payload_length = 0 })
      initial).submitted
    ≡ []
unfolding linux_submit_bulk_intr
pieces_0 = refl

bulk-not-other : read_40000.request_type ≢ other_type
bulk-not-other e = cc

cancelled-not-failed : (j : ℕ) → cancels j ≢ failed
cancelled-not-failed j e = cc

three_needed : 2 < urbs_needed read_40000.payload_length
unfolding urbs_needed
three_needed = omega arith

linux_submit_bulk_intr-Contiguous_example :
    let result = linux_submit_bulk_intr takes_all cancels true read_40000 initial in
    (result.io_status ≡ in_progress) × (result.code ≡ success) × Contiguous 0 40000 result.submitted
linux_submit_bulk_intr-Contiguous_example =
    linux_submit_bulk_intr-Contiguous takes_all cancels true read_40000 initial bulk-not-other
      (λ j. refl) (omega arith)

before_2 : (j : ℕ) → j < 2 → takes_two j ≡ none
before_2 j b = ground arith

linux_submit_bulk_intr-refused_example :
    let result = linux_submit_bulk_intr takes_two cancels true read_40000 initial in
    (result.io_status ≡ in_progress)
    × (result.code ≡ success)
    × (length result.submitted ≡ 2)
    × (result.priv.urbs_to_cancel + result.priv.urbs_to_reap ≡ 2)
    × (result.priv.completions ≡ [])
linux_submit_bulk_intr-refused_example =
    linux_submit_bulk_intr-refused takes_two cancels true read_40000 initial 1 12 bulk-not-other
      before_2 refl three_needed (omega arith) cancelled-not-failed
