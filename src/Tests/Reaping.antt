-- ===== src/Tests/Reaping.antt =====
-- A transfer of two URBs, of 64 bytes each.
use libopenusb.Prelude.{ℕ, ◌+◌, ◌^◌, ◌<◌, ◌≡◌, refl, inl, inr, true, false, [], ◌∷◌, arith}
use libopenusb.Codes.{success}
use libopenusb.Urbs.{
  UrbStatus, done, remote_io, no_entry, conn_reset, other, Urb, normal, Discard, cancelled,
  IoPrivate, handle_bulk_intr_complete,
}
use libopenusb.Urbs.Courses.{reap_urbs, AllDone, total, reap_urbs-done, other_status-stuck}
use libopenusb.Urbs.ShortTransfers.{
  AllDiscarded, AllCleared, Plain, AllReset, AllSet, Enhanced, short-completes,
}

abbrev urb : UrbStatus → ℕ → Urb
urb st n = record { status = st; actual_length = n; buffer_length = 64; continuation = false }

abbrev two_urbs : IoPrivate
two_urbs = record {
  continuations = false ∷ false ∷ [];
  urbs_freed = false;
  reap_action = normal;
  urbs_to_cancel = 0;
  urbs_to_reap = 0;
  bytes_transferred = 0;
  completions = [];
}

abbrev cancels : ℕ → Discard
cancels _ = cancelled

both_done : AllDone (urb done 64 ∷ urb done 64 ∷ [])
unfolding AllDone
both_done = (refl, refl, (refl, refl, tt))

bytes_128 : 0 + total (urb done 64 ∷ urb done 64 ∷ []) < 2 ^ 32
unfolding total
bytes_128 = omega arith

reap_urbs-done_example :
    ((reap_urbs cancels 0 (urb done 64 ∷ urb done 64 ∷ []) two_urbs).completions
      ≡ (success, 0 + total (urb done 64 ∷ urb done 64 ∷ [])) ∷ [])
    × ((reap_urbs cancels 0 (urb done 64 ∷ urb done 64 ∷ []) two_urbs).urbs_freed ≡ true)
reap_urbs-done_example =
    reap_urbs-done cancels 0 (urb done 64) (urb done 64 ∷ []) two_urbs both_done refl refl bytes_128

done_run :
    (reap_urbs cancels 0 (urb done 64 ∷ urb done 64 ∷ []) two_urbs).completions
    ≡ (success, 128) ∷ []
unfolding reap_urbs handle_bulk_intr_complete
done_run = refl

-- With bulk continuation the kernel resets the second URB.
abbrev reset_urb : Urb
reset_urb = record (urb conn_reset 0) { continuation = true }

abbrev continued : IoPrivate
continued = record two_urbs { continuations = false ∷ true ∷ [] }

second_reset : Enhanced (urb remote_io 10) (reset_urb ∷ []) (true ∷ [])
unfolding Enhanced AllReset AllSet
second_reset = (refl, (refl, refl, tt), (refl, tt))

short-completes_example :
    (reap_urbs cancels 0 (urb remote_io 10 ∷ reset_urb ∷ []) continued).completions
    ≡ (success, 10) ∷ []
short-completes_example =
    short-completes cancels 0 (urb remote_io 10) reset_urb [] continued (inr second_reset)
      (omega arith) refl refl refl refl refl (omega arith) (omega arith)

-- Without it the second URB is discarded.
second_discarded : Plain cancels (urb done 10) (urb no_entry 0 ∷ []) (false ∷ [])
unfolding Plain AllDiscarded AllCleared
second_discarded = (refl, λ j. refl, (refl, refl, tt), (refl, tt))

short_discarded :
    (reap_urbs cancels 0 (urb done 10 ∷ urb no_entry 0 ∷ []) two_urbs).completions
    ≡ (success, 10) ∷ []
short_discarded =
    short-completes cancels 0 (urb done 10) (urb no_entry 0) [] two_urbs (inl second_discarded)
      (omega arith) refl refl refl refl refl (omega arith) (omega arith)

-- The second URB comes back with an error.
other_status-stuck_example :
    (io' : IoPrivate) × (handle_bulk_intr_complete cancels 1 (urb other 0) two_urbs ≡ io')
    × (io'.completions ≡ [])
    × (io'.urbs_to_cancel ≡ 0)
    × (io'.urbs_to_reap ≡ 0)
other_status-stuck_example =
    other_status-stuck cancels 1 (urb other 0) two_urbs refl refl refl refl refl
