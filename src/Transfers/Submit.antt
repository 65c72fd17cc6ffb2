-- ===== src/Transfers/Submit.antt =====
-- Submitting requests: openusb/src/io.c, and `openusb_xfer_wait` and `openusb_xfer_aio` of
-- openusb/src/api.c. Addresses that are allocated, the thread that is created and what goes on while
-- a function waits are parameters.
use libopenusb.Prelude.{
  ltb, ◌==◌, if◌then◌else◌, ℤ, pos, negsuc, is_neg, ℕ, Bool, true, false, not, ◌||◌, Option, none,
  some, [], ◌∷◌, ◌++◌,
}
use libopenusb.Codes.{success, platform_failure, no_resources, badarg, invalid_handle}
use libopenusb.Run.{Run, ok, fault, ◌>>=◌}
use libopenusb.Timeouts.{in_progress, usbi_get_xfer_timeout}
use libopenusb.Transfers.{
  Request, State, XferOps, control, interrupt, bulk, isochronous, pattern_async, pattern_sync,
  pattern_both, at, increment, io_at, unlinked, usbi_alloc_io, usbi_free_io, simple_io_setup,
  simple_io_wait, has_result,
}
use libopenusb.Transfers.Checks.{Dev, check_req_valid, size_code, aio_size_code}

-- A code that is not negative counts as success.
abbrev pub submitted : ℤ × State → ℤ × State
submitted (pos n, s) = (success, s)
submitted (negsuc n, s) = (negsuc n, s)

-- io->dev is not null, as `usbi_alloc_io` sets it.
unfoldable pub usbi_async_submit : XferOps → ℕ → State → Run (ℤ × State)
unfolding io_at
usbi_async_submit ops p s = do
  io ← io_at s p
  r ←
      if io.req.kind == control
      then ops.ctrl_xfer_aio p s
      else if io.req.kind == interrupt
      then ops.intr_xfer_aio p s
      else if io.req.kind == bulk
      then ops.bulk_xfer_aio p s
      else if io.req.kind == isochronous
      then ops.isoc_xfer_aio p s
      else ok (negsuc 0, s)
  ok (submitted r)

unfoldable pub usbi_sync_submit : XferOps → ℕ → State → Run (ℤ × State)
unfolding io_at
usbi_sync_submit ops p s = do
  io ← io_at s p
  r ←
      if io.req.kind == control
      then ops.ctrl_xfer_wait p s
      else if io.req.kind == interrupt
      then ops.intr_xfer_wait p s
      else if io.req.kind == isochronous
      then ops.isoc_xfer_wait p s
      else if io.req.kind == bulk
      then ops.bulk_xfer_wait p s
      else ok (badarg, s)
  ok (submitted r)

-- iop->callback = async_callback; iop->arg = io; simple_io_setup(io);
unfoldable pub set_callback : ℕ → State → Run State
unfolding io_at simple_io_setup
set_callback p s = do
  io ← io_at s p
  ok (record s {
    ios = at s.ios p (some (record io { callback = true }));
    simple = at s.simple p simple_io_setup;
  })

-- A request over a backend with asynchronous functions only: submit and wait.
unfoldable pub sync_by_async :
    XferOps → Option ℕ × Bool → (State → Run State) → Request → State → Run (ℤ × State)
sync_by_async ops (none, more) wake req s = ok (no_resources, s)
sync_by_async ops (some p, false) wake req s = ok (no_resources, (usbi_alloc_io (some p) req s).1)
sync_by_async ops (some p, true) wake req s = do
  s1 ← set_callback p (usbi_alloc_io (some p) req s).1
  r ← usbi_async_submit ops p s1
  if is_neg r.0
      then (usbi_free_io ops (some p) r.1 >>= λ s2. ok (r.0, s2))
      else (simple_io_wait wake p r.1 >>= λ w. usbi_free_io ops (some p) w.1 >>= λ s2. ok (w.0, s2))

-- A request over a backend with synchronous functions; without memory for it NULL is followed.
unfoldable pub sync_by_sync : XferOps → Option ℕ → Request → State → Run (ℤ × State)
sync_by_sync ops none req s = fault
sync_by_sync ops (some p) req s = do
  r ← usbi_sync_submit ops p (usbi_alloc_io (some p) req s).1
  s2 ← usbi_free_io ops (some p) r.1
  ok (r.0, s2)

-- The memory is the address of the I/O, if there is one, and whether there is a `struct simple_io`.
unfoldable pub usbi_io_sync :
    XferOps → Option ℕ × Bool → (State → Run State) → Request → State → Run (ℤ × State)
unfolding sync_by_async sync_by_sync
usbi_io_sync ops memory wake req s =
    if ops.io_pattern == pattern_async
    then (usbi_get_xfer_timeout s.timeout req.kind req.limit >>= λ t.
        sync_by_async ops memory wake req s)
    else if ops.io_pattern == pattern_sync || ops.io_pattern == pattern_both
    then (usbi_get_xfer_timeout s.timeout req.kind req.limit >>= λ t.
        sync_by_sync ops memory.0 req s)
    else ok (platform_failure, s)

-- The request is not null.
unfoldable pub openusb_xfer_wait :
    Option Dev → Option ℕ × Bool → (State → Run State) → Request → State → Run (ℤ × State)
openusb_xfer_wait found memory wake req s = elim found [
  | none ↦ ok (invalid_handle, s)
  | some dev ↦ size_code dev.max_xfer_size req >>= λ size. elim size [
    | some e ↦ ok (e, s)
    | none ↦ check_req_valid dev req >>= λ valid.
        if is_neg valid
        then ok (badarg, s)
        else if ltb dev.ops.io_pattern pattern_async || ltb pattern_both dev.ops.io_pattern
        then ok (platform_failure, s)
        else usbi_io_sync dev.ops memory wake req s
  ]
]

-- The thread of a request over a backend with synchronous functions only.
unfoldable pub io_submit : XferOps → ℕ → State → Run State
unfolding io_at unlinked increment
io_submit ops p s = do
  r ← usbi_sync_submit ops p (unlinked p s)
  io ← io_at r.1 p
  if io.req.cb
      then usbi_free_io ops (some p) (record (r.1) { called = io.req.id ∷ r.1.called })
      else ok (record (r.1) {
        complete_list = r.1.complete_list ++ p ∷ [];
        complete_count = increment r.1.complete_count;
      })

-- `create` is `pthread_create` with `io_submit`: its result, and the state when it returns. The
-- result is an error number, which is not below 0, and the test is for one below 0.
unfoldable pub usbi_io_async : XferOps → (ℕ → State → Run (ℕ × State)) → ℕ → State → Run (ℤ × State)
unfolding io_at
usbi_io_async ops create p s = do
  io ← io_at s p
  if not (has_result io.req.kind)
      then ok (badarg, s)
      else if ops.io_pattern == pattern_async || ops.io_pattern == pattern_both
      then usbi_async_submit ops p s
      else if ops.io_pattern == pattern_sync
      then (create p s >>= λ r. ok (success, r.1))
      else ok (platform_failure, s)

abbrev is_success : ℤ → Bool
is_success (pos n) = n == 0
is_success (negsuc n) = false

-- io->status = USBI_IO_INPROGRESS; io->flag = USBI_ASYNC;
unfoldable pub set_async : ℕ → State → Run State
unfolding io_at
set_async p s = do
  io ← io_at s p
  ok (record s { ios = at s.ios p (some (record io { status = in_progress; async = true })) })

-- A request that cannot be submitted is deleted from its list, and then again with its memory.
unfoldable pub submit_new : XferOps → (ℕ → State → Run (ℕ × State)) → ℕ → State → Run (ℤ × State)
unfolding unlinked
submit_new ops create p s = do
  s1 ← set_async p s
  r ← usbi_io_async ops create p s1
  if is_success r.0
      then ok (pos 0, r.1)
      else (usbi_free_io ops (some p) (unlinked p r.1) >>= λ s2. ok (r.0, s2))

unfoldable pub openusb_xfer_aio :
    Option Dev → Option ℕ → (ℕ → State → Run (ℕ × State)) → Request → State → Run (ℤ × State)
openusb_xfer_aio found memory create req s = elim found [
  | none ↦ ok (badarg, s)
  | some dev ↦ aio_size_code dev.max_xfer_size req >>= λ size. elim size [
    | some e ↦ ok (e, s)
    | none ↦ check_req_valid dev req >>= λ valid.
        if is_neg valid
        then ok (invalid_handle, s)
        else usbi_get_xfer_timeout s.timeout req.kind req.limit >>= λ t. elim memory [
          | none ↦ ok (no_resources, s)
          | some p ↦ submit_new dev.ops create p (usbi_alloc_io (some p) req s).1
        ]
  ]
]
