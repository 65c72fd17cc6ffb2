-- ===== src/Transfers/Waiting.antt =====
-- `openusb_wait` and `openusb_poll` of openusb/src/api.c: taking a completed request off the library
-- handle's list. The requests waited for are given by their structures, which are not null.
use libopenusb.Prelude.{
  ◌==◌, if◌then◌else◌, ℤ, ℕ, zero, suc, Bool, false, not, ◌||◌, Option, none, some, List, [], ◌∷◌,
}
use libopenusb.Codes.{success, badarg}
use libopenusb.Run.{Run, ok, no_fuel, ◌>>=◌}
use libopenusb.Transfers.{Request, State, XferOps, decrement, io_at, unlinked, usbi_free_io}

-- What is stored at `handle`
pub data Out : Type 0 where
  untouched : Out
  null_handle : Out
  request : ℕ → Out

-- Is a request among those waited for?
unfoldable pub among : ℕ → List Request → Bool
among r [] = false
among r (q ∷ qs) = r == q.id || among r qs

unfoldable pub any_callback : List Request → Bool
any_callback [] = false
any_callback (q ∷ qs) = q.cb || any_callback qs

-- The first I/O of the list whose request is waited for
unfoldable pub first_done : State → List Request → List ℕ → Run (Option ℕ)
unfolding io_at among
first_done s handles [] = ok none
first_done s handles (p ∷ ps) =
    let rest = first_done s handles ps in
    io_at s p >>= λ io. if among io.req.id handles then ok (some p) else rest

-- *handle = io->req, and the I/O is taken off and freed.
unfoldable pub take_done : XferOps → ℕ → State → Run (Out × State)
unfolding io_at unlinked decrement
take_done ops p s = do
  io ← io_at s p
  s1 ←
      usbi_free_io ops (some p)
        (record (unlinked p s) { complete_count = decrement s.complete_count })
  ok (request io.req.id, s1)

-- The end of a wait: it has returned, or no other thread does any more and it goes on waiting.
pub data Waited : Type 0 where
  returned : ℤ → Out → State → Waited
  blocked : State → Waited

-- The loop from `waiting`, with fuel for its rounds: `events` are what other threads do, one for each
-- wait on `complete_cv`.
unfoldable pub wait_loop : ℕ → XferOps → List Request → List (State → State) → State → Run Waited
wait_loop zero ops handles events s = no_fuel
wait_loop (suc fuel) ops handles events s =
    if s.complete_count == 0
    then elim events [ [] ↦ ok (blocked s) | e ∷ es ↦ wait_loop fuel ops handles es (e s) ]
    else (first_done s handles s.complete_list >>= λ found. elim found [
      | some p ↦ take_done ops p s >>= λ r. ok (returned success r.0 r.1)
      | none ↦
          wait_loop fuel ops handles events
            (record s { complete_count = decrement s.complete_count })
    ])

-- `given` says that no pointer is null, `known` that the device of the first request is open.
unfoldable pub openusb_wait :
    ℕ → XferOps → Bool → Bool → List Request → List (State → State) → State → Run Waited
unfolding any_callback
openusb_wait fuel ops given known [] events s = ok (returned success untouched s)
openusb_wait fuel ops given known (q ∷ qs) events s =
    if not given || not known || any_callback (q ∷ qs)
    then ok (returned badarg untouched s)
    else wait_loop fuel ops (q ∷ qs) events s

unfoldable pub openusb_poll : XferOps → Bool → Bool → List Request → State → Run (ℤ × Out × State)
openusb_poll ops given known [] s = ok (success, untouched, s)
openusb_poll ops given known (q ∷ qs) s =
    if not given || not known
    then ok (badarg, untouched, s)
    else (first_done s (q ∷ qs) s.complete_list >>= λ found. elim found [
      | some p ↦ take_done ops p s >>= λ r. ok (success, r.0, r.1)
      | none ↦ ok (success, null_handle, s)
    ])
