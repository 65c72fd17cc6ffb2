-- ===== src/Tests/Requests.antt =====
-- Requests over a backend that takes all of them and completes none before it returns.
use libopenusb.Codes.{success, io_req_too_big}
use libopenusb.Transfers.Checks.{Dev}
use libopenusb.Transfers.Waiting.{
  null_handle, request, among, any_callback, first_done, take_done, returned, blocked, openusb_wait,
  openusb_poll,
}
use libopenusb.Transfers.Retrieval.{IsFor, IsOther, First, taken, poll-first}
use libopenusb.Transfers.Blocking.{wait-first, wait-lost}
use libopenusb.Transfers.Refusals.{too_large-refused}
use libopenusb.Tests.Rings.{absent-NotIn}
use libopenusb.Transfers.Queues.{Each}
use libopenusb.Prelude.{
  replicate, ℤ, pos, negsuc, ℕ, ◌≡◌, refl, ◌⊎◌, Bool, true, false, none, some, [], ◌∷◌, ◌++◌, arith,
}
use libopenusb.Run.{Run, ok}
use libopenusb.Timeouts.{IoStatus, in_progress, completed}
use libopenusb.Transfers.{
  Request, UsbiIo, State, XferOps, bulk, pattern_async, at, usbi_alloc_io, usbi_free_io,
  usbi_io_complete,
}
use libopenusb.Transfers.Submit.{usbi_io_sync, openusb_xfer_wait, set_async, openusb_xfer_aio}
use libopenusb.Transfers.Completion.{Good}
use libopenusb.Transfers.Traces.{Step, allocated, marked, finished, IsFresh, Reached, start, onward}
use libopenusb.Transfers.Invariant.{Reached-Good}
use libopenusb.Transfers.Soundness.{Sound}
use libopenusb.Transfers.Calls.{
  left_by, Call, allocating, marking, completing_io, waiting, Called, begin, after, Called-Sound,
}
use libopenusb.Transfers.Synchronous.{Accepts, io_sync-completed}

abbrev takes : ℕ → State → Run (ℤ × State)
takes p s = ok (pos 0, s)

abbrev backend : XferOps
backend = record {
  io_pattern = pattern_async;
  ctrl_xfer_wait = takes;
  intr_xfer_wait = takes;
  bulk_xfer_wait = takes;
  isoc_xfer_wait = takes;
  ctrl_xfer_aio = takes;
  intr_xfer_aio = takes;
  bulk_xfer_aio = takes;
  isoc_xfer_aio = takes;
  io_cancel = none;
}

backend-Accepts : Accepts backend
backend-Accepts = record {
  pattern = refl;
  ctrl = λ p s. refl;
  intr = λ p s. refl;
  bulk_aio = λ p s. refl;
  isoc = λ p s. refl;
}

-- Bulk requests
abbrev bulk_request : ℕ → Request
bulk_request n = record {
  id = n;
  kind = bulk;
  interface = 0;
  endpoint = 1;
  size = 512;
  limit = 100;
  cb = false;
}

abbrev fresh : State
fresh = record {
  ios = λ _. none;
  simple = λ _. record { completed = false; status = pos 0 };
  results = λ _. record { status = pos 0; transferred_bytes = 0 };
  io_head = [];
  complete_list = [];
  complete_count = 0;
  called = [];
  timeout = replicate 5 0;
}

fresh-IsFresh : IsFresh fresh
unfolding IsFresh
fresh-IsFresh = (refl, refl, refl)

-- A request allocated at 70, marked, and completed
abbrev io_of : ℕ → IoStatus → Bool → UsbiIo
io_of n st a = record { req = bulk_request n; status = st; async = a; callback = false }

abbrev allocated_70 : State
allocated_70 = record fresh {
  ios = at fresh.ios 70 (some (io_of 7 in_progress false));
  io_head = 70 ∷ [];
}

abbrev marked_70 : State
marked_70 = record allocated_70 { ios = at allocated_70.ios 70 (some (io_of 7 in_progress true)) }

abbrev done_70 : State
done_70 = record marked_70 {
  ios = at marked_70.ios 70 (some (io_of 7 completed true));
  io_head = [];
  complete_list = 70 ∷ [];
  complete_count = 1;
  results = at marked_70.results 7 (record { status = pos 0; transferred_bytes = 512 });
}

done_70-Reached : Reached backend done_70
unfolding usbi_alloc_io set_async usbi_io_complete
done_70-Reached =
    let first : Step backend fresh allocated_70 = allocated 70 (bulk_request 7) refl in
    onward marked_70 done_70
      (onward allocated_70 marked_70 (onward fresh allocated_70 (start fresh fresh-IsFresh) first)
        (marked 70 (io_of 7 in_progress false) marked_70 refl refl refl))
      (finished 70 (io_of 7 in_progress true) (pos 0) 512 done_70 refl refl refl)

done_70-Called : Called backend done_70
unfolding usbi_alloc_io set_async usbi_io_complete
done_70-Called =
    let first : Call backend fresh allocated_70 = allocating 70 (bulk_request 7) refl in
    after marked_70 done_70
      (after allocated_70 marked_70 (after fresh allocated_70 (begin fresh fresh-IsFresh) first)
        (marking 70 (io_of 7 in_progress false) marked_70 refl refl refl))
      (completing_io 70 (io_of 7 in_progress true) (pos 0) 512 done_70 refl refl refl)

done_70-Good : Good done_70
done_70-Good = Reached-Good backend done_70 done_70-Reached

poll-first_example :
    ((f : First done_70 (bulk_request 7 ∷ []) (70 ∷ [])) × (io : UsbiIo) × (done_70.ios f.address
        ≡ some io)
      × (openusb_poll backend true true (bulk_request 7 ∷ []) done_70
          ≡ ok (success, request io.req.id, taken f.address done_70))
      × Good (taken f.address done_70)
      × ((taken f.address done_70).complete_list ≡ f.before ++ f.after))
    ⊎ (Each (IsOther (bulk_request 7 ∷ [])) done_70.ios (70 ∷ [])
        × (openusb_poll backend true true (bulk_request 7 ∷ []) done_70
            ≡ ok (success, null_handle, done_70)))
poll-first_example = poll-first backend (bulk_request 7) [] done_70 done_70-Good

poll_run :
    openusb_poll backend true true (bulk_request 7 ∷ []) done_70
    ≡ ok (success, request 7, taken 70 done_70)
unfolding openusb_poll first_done take_done usbi_free_io
poll_run = refl

is_first : First done_70 (bulk_request 7 ∷ []) (70 ∷ [])
unfolding IsFor Each among
is_first = record {
  address = 70;
  before = [];
  after = [];
  split = refl;
  others = tt;
  wanted = (io_of 7 completed true, refl, refl);
}

no_callbacks : (n : ℕ) → any_callback (bulk_request n ∷ []) ≡ false
unfolding any_callback
no_callbacks n = refl

wait-first_example :
    (io : UsbiIo) × (done_70.ios is_first.address ≡ some io)
    × (openusb_wait 1 backend true true (bulk_request 7 ∷ []) [] done_70
        ≡ ok (returned success (request io.req.id) (taken is_first.address done_70)))
wait-first_example =
    wait-first backend (bulk_request 7) [] (no_callbacks 7) 0 [] done_70 is_first done_70-Good
      (omega arith)

other_request : Each (IsOther (bulk_request 8 ∷ [])) done_70.ios (70 ∷ [])
unfolding IsOther Each among
other_request = ((io_of 7 completed true, refl, refl), tt)

-- A wait for request 8 loses the completion of request 7.
wait-lost_example :
    (openusb_wait 2 backend true true (bulk_request 8 ∷ []) [] done_70
      ≡ ok (blocked (record done_70 { complete_count = 0 })))
    × (openusb_wait 1 backend true true
          (bulk_request 7 ∷ [])
          []
          (record done_70 { complete_count = 0 })
        ≡ ok (blocked (record done_70 { complete_count = 0 })))
wait-lost_example =
    wait-lost backend (bulk_request 8) [] (no_callbacks 8) 2 0 done_70 (bulk_request 7) []
      done_70-Good other_request (omega arith) (omega arith) (no_callbacks 7)

-- The wait for request 8 leaves the completion of request 7 on the list, and counts it no more.
missed_70-Called : Called backend (record done_70 { complete_count = 0 })
unfolding left_by
missed_70-Called =
    let lost =
      wait-lost backend (bulk_request 8) [] (no_callbacks 8) 2 0 done_70 (bulk_request 7) []
        done_70-Good other_request (omega arith) (omega arith) (no_callbacks 7) in
    after done_70 (record done_70 { complete_count = 0 }) done_70-Called
      (waiting 2 (bulk_request 8) [] (blocked (record done_70 { complete_count = 0 })) lost.0)

Called-Sound_example : Sound (record done_70 { complete_count = 0 })
Called-Sound_example = Called-Sound backend (record done_70 { complete_count = 0 }) missed_70-Called

io_sync-completed_example :
    (s' : State) × (usbi_io_sync backend
        (some 70, true)
        (usbi_io_complete 70 (pos 0) 512)
        (bulk_request 7)
        fresh
      ≡ ok (pos 0, s'))
    × (s'.results 7 ≡ record { status = pos 0; transferred_bytes = 512 })
    × (s'.ios 70 ≡ none)
    × (s'.io_head ≡ [])
    × (s'.complete_list ≡ [])
    × (s'.complete_count ≡ 0)
io_sync-completed_example =
    io_sync-completed backend 70 (bulk_request 7) (pos 0) 512 fresh backend-Accepts refl refl
      (absent-NotIn 70 [] refl) (absent-NotIn 70 [] refl)

-- A bus that takes 256 bytes at most
abbrev device : Dev
device = record {
  ops = backend;
  max_xfer_size = 0 ∷ 256 ∷ 256 ∷ 256 ∷ 256 ∷ [];
  debug_level = 0;
  is_interface_claimed = λ _. ok (pos 1);
  get_configuration = (pos 0, 1);
  get_altsetting = λ _. (pos 0, 0);
  control_xfer = λ _ _. record { ret = negsuc 0; status = pos 0; sent = [] };
  alloc = λ _. true;
  stack = replicate 8 0;
}

too_large_512 :
    (openusb_xfer_wait (some device) (some 70, true) (λ s. ok s) (bulk_request 7) fresh
      ≡ ok (io_req_too_big, fresh))
    × (openusb_xfer_aio (some device) (some 70) (λ p s. ok (0, s)) (bulk_request 7) fresh
        ≡ ok (io_req_too_big, fresh))
too_large_512 =
    too_large-refused device (bulk_request 7) 256 (some 70, true) (λ s. ok s) (λ p s. ok (0, s))
      fresh refl refl (omega arith) (omega arith) (omega arith)
