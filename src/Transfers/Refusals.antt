-- ===== src/Transfers/Refusals.antt =====
-- Requests that are not carried out: too large for their bus (openusb/src/api.c), refused by the
-- backend, or without memory (openusb/src/io.c).
use libopenusb.LinkedList.Chains.{NotIn}
use libopenusb.Prelude.{
  ◌==◌, get_elem?, ℤ, negsuc, ℕ, ◌<◌, ◌≡◌, refl, ◌≢◌, Bool, true, false, Option, none, some, List,
  [], ◌∷◌, ◌++◌, arith,
}
use libopenusb.Codes.{no_resources, io_req_too_big}
use libopenusb.Run.{Run, ok}
use libopenusb.Timeouts.{in_progress, usbi_get_xfer_timeout}
use libopenusb.Transfers.{
  Request, UsbiIo, State, XferOps, isochronous, pattern_async, at, unlinked, usbi_alloc_io,
  usbi_free_io, has_result,
}
use libopenusb.Transfers.Queues.{remove-absent, remove-snoc}
use libopenusb.Transfers.Checks.{Dev, size_code, aio_size_code}
use libopenusb.Transfers.Submit.{
  usbi_async_submit, usbi_io_sync, openusb_xfer_wait, usbi_io_async, set_async, submit_new,
  openusb_xfer_aio,
}

size_code-too_big :
    (limits : List ℕ) (req : Request) (most : ℕ)
    → get_elem? limits req.kind ≡ some most
    → has_result req.kind ≡ true
    → req.kind ≢ isochronous
    → most ≢ 0
    → most < req.size
    → size_code limits req ≡ ok (some io_req_too_big)
unfolding size_code
size_code-too_big limits req most e k i m l = ground (arith, e, k)

aio_size_code-too_big :
    (limits : List ℕ) (req : Request) (most : ℕ)
    → get_elem? limits req.kind ≡ some most
    → has_result req.kind ≡ true
    → req.kind ≢ isochronous
    → most ≢ 0
    → most < req.size
    → aio_size_code limits req ≡ ok (some io_req_too_big)
unfolding aio_size_code
aio_size_code-too_big limits req most e k i m l = ground (arith, e, k)

-- A control, interrupt or bulk request that is larger than its bus takes is refused in the same way
-- when it is waited for and when it is not, before anything is changed.
pub too_large-refused :
    (dev : Dev) (req : Request) (most : ℕ) (memory : Option ℕ × Bool) (wake : State → Run State)
    (create : ℕ → State → Run (ℕ × State)) (s : State)
    → get_elem? dev.max_xfer_size req.kind ≡ some most
    → has_result req.kind ≡ true
    → req.kind ≢ isochronous
    → most ≢ 0
    → most < req.size
    → (openusb_xfer_wait (some dev) memory wake req s ≡ ok (io_req_too_big, s))
      × (openusb_xfer_aio (some dev) memory.0 create req s ≡ ok (io_req_too_big, s))
unfolding openusb_xfer_wait openusb_xfer_aio
too_large-refused dev req most memory wake create s e k i m l = (
  rw (size_code-too_big dev.max_xfer_size req most e k i m l) refl,
  rw (aio_size_code-too_big dev.max_xfer_size req most e k i m l) refl,
)

-- A backend that refuses every request with a code below 0, and has nothing to cancel.
pub record Rejects (ops : XferOps) (code : ℕ) : Type 0 where
  pub pattern : ops.io_pattern ≡ pattern_async
  pub ctrl : (p : ℕ) (s : State) → ops.ctrl_xfer_aio p s ≡ ok (negsuc code, s)
  pub intr : (p : ℕ) (s : State) → ops.intr_xfer_aio p s ≡ ok (negsuc code, s)
  pub bulk_aio : (p : ℕ) (s : State) → ops.bulk_xfer_aio p s ≡ ok (negsuc code, s)
  pub isoc : (p : ℕ) (s : State) → ops.isoc_xfer_aio p s ≡ ok (negsuc code, s)
  pub cancel : ops.io_cancel ≡ none

io_async-Rejects :
    (ops : XferOps) (code p : ℕ) (s : State) (io : UsbiIo) (create : ℕ → State → Run (ℕ × State))
    → Rejects ops code
    → s.ios p ≡ some io
    → has_result io.req.kind ≡ true
    → usbi_io_async ops create p s ≡ ok (negsuc code, s)
unfolding usbi_io_async usbi_async_submit
io_async-Rejects ops code p s io create r e k =
    ground (arith, e, k, r.ctrl p s, r.intr p s, r.bulk_aio p s, r.isoc p s, r.pattern)

abbrev marked_io : Request → UsbiIo
marked_io req = record { req = req; status = in_progress; async = true; callback = false }

abbrev fresh_io : Request → UsbiIo
fresh_io req = record { req = req; status = in_progress; async = false; callback = false }

abbrev marked : ℕ → Request → State → State
marked p req s = record s {
  ios = at (at s.ios p (some (fresh_io req))) p (some (marked_io req));
  io_head = s.io_head ++ p ∷ [];
}

alloc-marked :
    (p : ℕ) (req : Request) (s : State)
    → set_async p (usbi_alloc_io (some p) req s).1 ≡ ok (marked p req s)
unfolding set_async usbi_alloc_io
alloc-marked p req s = ground arith

free-uncancelled :
    (ops : XferOps) (p : ℕ) (io : UsbiIo) (s : State)
    → s.ios p ≡ some io
    → ops.io_cancel ≡ none
    → usbi_free_io ops (some p) s ≡ ok (record (unlinked p s) { ios = at s.ios p none })
unfolding usbi_free_io
free-uncancelled ops p io s e c = ground (arith, e, c)

-- A request that the backend refuses leaves nothing behind: the caller gets the backend's code, and
-- its I/O is off the list and freed.
pub submit_new-rejected :
    (ops : XferOps) (code p : ℕ) (req : Request) (create : ℕ → State → Run (ℕ × State)) (s : State)
    → Rejects ops code
    → has_result req.kind ≡ true
    → NotIn p s.io_head
    → NotIn p s.complete_list
    → (s' : State) × (submit_new ops create p (usbi_alloc_io (some p) req s).1
        ≡ ok (negsuc code, s'))
      × (s'.ios p ≡ none)
      × (s'.io_head ≡ s.io_head)
      × (s'.complete_list ≡ s.complete_list)
unfolding submit_new unlinked
submit_new-rejected ops code p req create s r k h c =
    let m = marked p req s in
    let u = unlinked p m in
    let t : (p == p) ≡ true = ground arith in
    let e1 : m.ios p ≡ some (marked_io req) = rw t refl in
    let e2 : u.ios p ≡ some (marked_io req) = rw t refl in
    let head = remove-snoc p s.io_head h in
    let list = remove-absent p s.complete_list c in
    (
      record (unlinked p u) { ios = at u.ios p none },
      rw
          (
            alloc-marked p req s,
            io_async-Rejects ops code p m (marked_io req) create r e1 k,
            free-uncancelled ops p (marked_io req) u e2 r.cancel,
          )
          refl,
      rw t refl,
      rw (head, remove-absent p s.io_head h) refl,
      rw (list, list) refl,
    )

-- Without memory for the second structure, `usbi_io_sync` says so and leaves the first, which it does
-- not free, on the list of the requests on their way.
pub io_sync-leaks :
    (ops : XferOps) (p : ℕ) (wake : State → Run State) (req : Request) (s : State) (t : ℤ)
    → ops.io_pattern ≡ pattern_async
    → usbi_get_xfer_timeout s.timeout req.kind req.limit ≡ ok t
    → (s' : State) × (usbi_io_sync ops (some p, false) wake req s ≡ ok (no_resources, s'))
      × (s'.io_head ≡ s.io_head ++ p ∷ [])
      × (s'.ios p
          ≡ some (record { req = req; status = in_progress; async = false; callback = false }))
unfolding usbi_io_sync usbi_alloc_io
io_sync-leaks ops p wake req s t a e =
    let x : (p == p) ≡ true = ground arith in
    let y : (ops.io_pattern == pattern_async) ≡ true = rw a refl in
    ((usbi_alloc_io (some p) req s).1, rw (y, e) refl, refl, rw x refl)
