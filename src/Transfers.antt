-- ===== src/Transfers.antt =====
-- Requests on their way: `struct usbi_io` and openusb/src/io.c. A request and an I/O are addresses;
-- the state holds what is behind an I/O's, and nothing behind one that is freed, so that using it is
-- a fault. The lists are those of LinkedList, by the addresses on them. Two threads do not interleave
-- inside a function; what happens while a function waits is a parameter.
pub mod Checks
pub mod Submit
pub mod Waiting
pub mod Wrappers
pub mod Queues
pub mod Completion
pub mod Retrieval
pub mod Blocking
pub mod Traces
pub mod Invariant
pub mod Soundness
pub mod Calls
pub mod Synchronous
pub mod Refusals
use libopenusb.Prelude.{
  ltb, ◌==◌, if◌then◌else◌, ℤ, pos, ℕ, ◌+◌, ◌-◌, ◌%◌, ◌^◌, Bool, true, false, not, ◌&&◌, Option,
  none, some, List, [], ◌∷◌, ◌++◌,
}
use libopenusb.Run.{Run, ok, fault, ◌>>=◌}
use libopenusb.Timeouts.{IoStatus, in_progress, is_in_progress, completed}

-- struct openusb_request_handle, with the length and the timeout of its control, interrupt or bulk
-- request
pub record Request : Type 0 where
  pub id : ℕ
  pub kind : ℕ
  pub interface : ℕ
  pub endpoint : ℕ
  pub size : ℕ
  pub limit : ℕ
  pub cb : Bool

-- struct usbi_io; `callback` is `async_callback` or NULL.
pub record UsbiIo : Type 0 where
  pub req : Request
  pub status : IoStatus
  pub async : Bool
  pub callback : Bool

-- struct simple_io, the `arg` of an I/O
pub record SimpleIo : Type 0 where
  pub completed : Bool
  pub status : ℤ

-- openusb_request_result_t
pub record Result : Type 0 where
  pub status : ℤ
  pub transferred_bytes : ℕ

-- The device's `io_head`, the library handle's `complete_list` and `complete_count` (by its 32 bits),
-- the results by request, and the requests whose callback was called, the last first.
pub record State : Type 0 where
  pub ios : ℕ → Option UsbiIo
  pub simple : ℕ → SimpleIo
  pub results : ℕ → Result
  pub io_head : List ℕ
  pub complete_list : List ℕ
  pub complete_count : ℕ
  pub called : List ℕ
  pub timeout : List ℕ

-- The I/O operations of `struct usbi_device_ops`, and `io_pattern`
pub record XferOps : Type 0 where
  pub io_pattern : ℕ
  pub ctrl_xfer_wait : ℕ → State → Run (ℤ × State)
  pub intr_xfer_wait : ℕ → State → Run (ℤ × State)
  pub bulk_xfer_wait : ℕ → State → Run (ℤ × State)
  pub isoc_xfer_wait : ℕ → State → Run (ℤ × State)
  pub ctrl_xfer_aio : ℕ → State → Run (ℤ × State)
  pub intr_xfer_aio : ℕ → State → Run (ℤ × State)
  pub bulk_xfer_aio : ℕ → State → Run (ℤ × State)
  pub isoc_xfer_aio : ℕ → State → Run (ℤ × State)
  pub io_cancel : Option (ℕ → State → Run (ℤ × State))

-- USB_TYPE_CONTROL to USB_TYPE_ISOCHRONOUS
abbrev pub control : ℕ
control = 1

abbrev pub interrupt : ℕ
interrupt = 2

abbrev pub bulk : ℕ
bulk = 3

abbrev pub isochronous : ℕ
isochronous = 4

abbrev pub pattern_async : ℕ
pattern_async = 1

abbrev pub pattern_sync : ℕ
pattern_sync = 2

abbrev pub pattern_both : ℕ
pattern_both = 4

abbrev pub at {ℓ} : {A : Type ℓ} → (ℕ → A) → ℕ → A → ℕ → A
at f p v q = if q == p then v else f q

-- `list_del` from a list of addresses
unfoldable pub remove : ℕ → List ℕ → List ℕ
remove x [] = []
remove x (y ∷ ys) = let rest = remove x ys in if y == x then rest else y ∷ rest

-- complete_count++ and complete_count--
unfoldable pub increment : ℕ → ℕ
increment n = (n + 1) % 2 ^ 32

unfoldable pub decrement : ℕ → ℕ
decrement n = (n + (2 ^ 32 - 1)) % 2 ^ 32

-- The I/O behind an address
unfoldable pub io_at : State → ℕ → Run UsbiIo
io_at s p = elim (s.ios p) [ none ↦ fault | some io ↦ ok io ]

-- list_del(&io->list), whichever list the I/O is on
unfoldable pub unlinked : ℕ → State → State
unfolding remove
unlinked p s = record s { io_head = remove p s.io_head; complete_list = remove p s.complete_list }

-- With a new address, if there is memory; the timeout is modelled in Timeouts.
unfoldable pub usbi_alloc_io : Option ℕ → Request → State → Option ℕ × State
usbi_alloc_io memory req s = elim memory [
  | none ↦ (none, s)
  | some p ↦ (
    some p,
    record s {
      ios =
          at s.ios p
            (some (record { req = req; status = in_progress; async = false; callback = false }));
      io_head = s.io_head ++ p ∷ [];
    },
  )
]

-- The cancelling of a request that is on its way
unfoldable pub cancel_if_needed : XferOps → ℕ → UsbiIo → State → Run State
cancel_if_needed ops p io s =
    if is_in_progress io.status && io.async
    then elim ops.io_cancel [ none ↦ ok s | some f ↦ f p s >>= λ r. ok r.1 ]
    else ok s

unfoldable pub usbi_free_io : XferOps → Option ℕ → State → Run State
unfolding unlinked cancel_if_needed io_at
usbi_free_io ops io s = elim io [
  | none ↦ ok s
  | some p ↦ do
    v ← io_at s p
    s1 ← cancel_if_needed ops p v (unlinked p s)
    ok (record s1 { ios = at s1.ios p none })
]

-- simple_io_setup
unfoldable pub simple_io_setup : SimpleIo
simple_io_setup = record { completed = false; status = pos 0 }

unfoldable pub simple_io_complete : SimpleIo → ℤ → SimpleIo
simple_io_complete io status = record { completed = true; status = status }

-- One wait at most: `wake` is what happened to the value when the wait returns.
unfoldable pub simple_io_wait : (State → Run State) → ℕ → State → Run (ℤ × State)
simple_io_wait wake p s =
    if (s.simple p).completed
    then ok ((s.simple p).status, s)
    else wake s >>= λ s1. ok ((s1.simple p).status, s1)

-- A transfer type that is known
abbrev pub has_result : ℕ → Bool
has_result kind = not (kind == 0) && not (ltb 4 kind)

-- The part that adds a completion for later retrieval
unfoldable pub add_completion : ℕ → UsbiIo → State → State
unfolding increment
add_completion p io s =
    if io.async
    then record s {
      complete_list = s.complete_list ++ p ∷ [];
      complete_count = increment s.complete_count;
    }
    else s

-- The callbacks: the user's, of an asynchronous request, and the internal one
unfoldable pub run_callbacks : ℕ → UsbiIo → ℤ → State → State
unfolding simple_io_complete
run_callbacks p io status s =
    let s1 = if io.async && io.req.cb then record s { called = io.req.id ∷ s.called } else s in
    if io.callback
    then record s1 { simple = at s1.simple p (simple_io_complete (s1.simple p) status) }
    else s1

unfoldable pub usbi_io_complete : ℕ → ℤ → ℕ → State → Run State
unfolding io_at unlinked add_completion run_callbacks
usbi_io_complete p status transferred_bytes s = do
  io ← io_at s p
  let done = record io { status = completed }
  let s1 = unlinked p (record s { ios = at s.ios p (some done) })
  let s2 = add_completion p done s1
  if has_result done.req.kind
      then ok (
          run_callbacks p done status (record s2 {
            results =
                at s2.results done.req.id
                  (record { status = status; transferred_bytes = transferred_bytes });
          }))
      else fault
