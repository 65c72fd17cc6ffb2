-- ===== src/Transfers/Synchronous.antt =====
-- `usbi_io_sync` of openusb/src/io.c over a backend that only knows asynchronous requests.
use libopenusb.LinkedList.Chains.{NotIn}
use libopenusb.Descriptors.InterfaceParser.{to_int}
use libopenusb.Transfers.Queues.{remove-absent, remove-snoc}
use libopenusb.Prelude.{
  ltb, ◌==◌, if◌then◌else◌, Bool-cases, length, get_elem?-lt, ℤ, pos, negsuc, ℕ, ◌-◌, ◌^◌, ◌≡◌,
  refl, ap, inl, inr, true, false, ◌||◌, none, some, [], ◌∷◌, ◌++◌, arith,
}
use libopenusb.Codes.{success}
use libopenusb.Run.{ok}
use libopenusb.Timeouts.{in_progress, completed, usbi_get_xfer_timeout}
use libopenusb.Transfers.{
  Request, UsbiIo, SimpleIo, State, XferOps, pattern_async, at, unlinked, usbi_alloc_io,
  usbi_free_io, simple_io_wait, has_result, usbi_io_complete,
}
use libopenusb.Transfers.Submit.{usbi_async_submit, set_callback, usbi_io_sync}

-- A backend that takes every request, and completes none before it returns.
pub record Accepts (ops : XferOps) : Type 0 where
  pub pattern : ops.io_pattern ≡ pattern_async
  pub ctrl : (p : ℕ) (s : State) → ops.ctrl_xfer_aio p s ≡ ok (pos 0, s)
  pub intr : (p : ℕ) (s : State) → ops.intr_xfer_aio p s ≡ ok (pos 0, s)
  pub bulk_aio : (p : ℕ) (s : State) → ops.bulk_xfer_aio p s ≡ ok (pos 0, s)
  pub isoc : (p : ℕ) (s : State) → ops.isoc_xfer_aio p s ≡ ok (pos 0, s)

pub async_submit-Accepts :
    (ops : XferOps) (p : ℕ) (s : State) (io : UsbiIo)
    → Accepts ops
    → s.ios p ≡ some io
    → has_result io.req.kind ≡ true
    → usbi_async_submit ops p s ≡ ok (success, s)
unfolding usbi_async_submit
async_submit-Accepts ops p s io a e k =
    ground (arith, e, k, a.ctrl p s, a.intr p s, a.bulk_aio p s, a.isoc p s)

-- The I/O of a synchronous request, as it waits.
abbrev waiting_io : Request → UsbiIo
waiting_io req = record { req = req; status = in_progress; async = false; callback = true }

abbrev done_io : Request → UsbiIo
done_io req = record { req = req; status = completed; async = false; callback = true }

-- The states when it waits, when it has been completed, and when it is freed.
abbrev waiting : ℕ → Request → State → State
waiting p req s = record s {
  ios =
      at (at s.ios p (some (record (waiting_io req) { callback = false }))) p
        (some (waiting_io req));
  io_head = s.io_head ++ p ∷ [];
  simple = at s.simple p (record { completed = false; status = pos 0 });
}

abbrev finished : ℕ → Request → ℤ → ℕ → State → State
finished p req status n s =
    let w = unlinked p (record s { ios = at s.ios p (some (done_io req)) }) in
    record w {
      results = at s.results req.id (record { status = status; transferred_bytes = n });
      simple = at s.simple p (record { completed = true; status = status });
    }

waiting-set :
    (p : ℕ) (req : Request) (s : State)
    → set_callback p (usbi_alloc_io (some p) req s).1 ≡ ok (waiting p req s)
unfolding set_callback usbi_alloc_io
waiting-set p req s = ground arith

waiting-done :
    (p : ℕ) (req : Request) (status : ℤ) (n : ℕ) (s : State)
    → s.ios p ≡ some (waiting_io req)
    → has_result req.kind ≡ true
    → usbi_io_complete p status n s ≡ ok (finished p req status n s)
unfolding usbi_io_complete
waiting-done p req status n s e k = ground (arith, e, k)

abbrev freed_state : ℕ → State → State
freed_state p s = record (unlinked p s) { ios = at s.ios p none }

done-freed :
    (ops : XferOps) (p : ℕ) (req : Request) (s : State)
    → s.ios p ≡ some (done_io req)
    → usbi_free_io ops (some p) s ≡ ok (freed_state p s)
unfolding usbi_free_io
done-freed ops p req s e = ground (arith, e)

at-same {ℓ} : {A : Type ℓ} (f : ℕ → A) (p : ℕ) (v : A) → at f p v p ≡ v
at-same f p v = let t : (p == p) ≡ true = ground arith in rw t refl

wait-wakes :
    (p : ℕ) (req : Request) (status : ℤ) (n : ℕ) (s : State)
    → (s.simple p).completed ≡ false
    → s.ios p ≡ some (waiting_io req)
    → has_result req.kind ≡ true
    → simple_io_wait (usbi_io_complete p status n) p s ≡ ok (status, finished p req status n s)
unfolding simple_io_wait
wait-wakes p req status n s c e k =
    let t : (p == p) ≡ true = ground arith in rw (c, waiting-done p req status n s e k, t) refl

-- The timeout is found for every type, in the table of five.
timeout_code :
    (s : State) (req : Request)
    → has_result req.kind ≡ true
    → length s.timeout ≡ 5
    → (t : ℤ) × (usbi_get_xfer_timeout s.timeout req.kind req.limit ≡ ok t)
unfolding usbi_get_xfer_timeout
timeout_code s req k l =
    let (d, e) = get_elem?-lt s.timeout req.kind (ground arith) in
    let known : (req.kind == 0 || ltb 4 req.kind) ≡ false = ground arith in
    let asked = if req.kind == 4 then 0 else req.limit in
    elim (Bool-cases (asked == 2 ^ 32 - 1)) [
      | inl a ↦ (negsuc 0, rw (known, a) refl)
      | inr a ↦ elim (Bool-cases (asked == 0)) [
        | inl b ↦ (to_int d, rw (known, a, b, e) refl)
        | inr b ↦ (to_int asked, rw (known, a, b) refl)
      ]
    ]

-- A synchronous request to a backend that takes it and completes it while the caller waits returns the
-- status of the completion, leaves it and the length in the result, and leaves no trace on a list:
-- its I/O is freed.
pub io_sync-completed :
    (ops : XferOps) (p : ℕ) (req : Request) (status : ℤ) (n : ℕ) (s : State)
    → Accepts ops
    → has_result req.kind ≡ true
    → length s.timeout ≡ 5
    → NotIn p s.io_head
    → NotIn p s.complete_list
    → (s' : State) × (usbi_io_sync ops (some p, true) (usbi_io_complete p status n) req s
        ≡ ok (status, s'))
      × (s'.results req.id ≡ record { status = status; transferred_bytes = n })
      × (s'.ios p ≡ none)
      × (s'.io_head ≡ s.io_head)
      × (s'.complete_list ≡ s.complete_list)
      × (s'.complete_count ≡ s.complete_count)
unfolding usbi_io_sync unlinked
io_sync-completed ops p req status n s a k l h c =
    let w = waiting p req s in
    let f = finished p req status n w in
    let e1 =
      at-same (at s.ios p (some (record (waiting_io req) { callback = false }))) p
        (some (waiting_io req)) in
    let e2 = at-same w.ios p (some (done_io req)) in
    let simple =
      ap (λ (x : SimpleIo). x.completed)
        (at-same s.simple p (record { completed = false; status = pos 0 })) in
    let (t, timed) = timeout_code s req k l in
    let t1 : (ops.io_pattern == pattern_async) ≡ true = rw a.pattern refl in
    let head = remove-snoc p s.io_head h in
    let list = remove-absent p s.complete_list c in
    (
      freed_state p f,
      rw
          (
            t1,
            timed,
            waiting-set p req s,
            async_submit-Accepts ops p w (waiting_io req) a e1 k,
            wait-wakes p req status n w simple e1 k,
            done-freed ops p req f e2,
          )
          refl,
      at-same w.results req.id (record { status = status; transferred_bytes = n }),
      at-same f.ios p none,
      rw (head, remove-absent p s.io_head h) refl,
      rw (list, list) refl,
      refl,
    )
