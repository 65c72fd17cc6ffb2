-- ===== src/Urbs/Splitting.antt =====
-- A bulk or interrupt transfer is split into URBs of 16 KB, which are submitted in order
-- (`linux_submit_bulk_intr` of openusb/src/linux.c). The kernel's answers are given: to the submission
-- of a URB an errno or none, to the discarding of one its `Discard`. The memory is there, the pointers
-- are not NULL, and `urb_submit` returns -1 with errno, so the test of `-EREMOTEIO` never holds.
pub mod Pieces
pub mod Refusals
use libopenusb.Prelude.{
  ltb, ◌==◌, if◌then◌else◌, ℤ, ℕ, zero, suc, ◌+◌, ◌-◌, ◌*◌, ◌/◌, ◌%◌, ◌^◌, Bool, false, ◌&&◌,
  Option, none, some, List, [], ◌∷◌, ◌++◌,
}
use libopenusb.Descriptors.InterfaceParser.{to_int}
use libopenusb.Codes.{success, badarg}
use libopenusb.Timeouts.{IoStatus, in_progress, completed_fail}
use libopenusb.Urbs.{normal, Discard, IoPrivate, translate_errno, handle_partial_submit}

-- LINUX_MAX_BULK_INTR_XFER
abbrev pub max_bulk_intr_xfer : ℕ
max_bulk_intr_xfer = 16384

-- io->req->type
pub data RequestType : Type 0 where
  bulk : RequestType
  interrupt : RequestType
  other_type : RequestType

-- struct openusb_bulk_request or openusb_intr_request, with the endpoint and type of the request
-- handle; the payload is addressed from its start.
pub record BulkRequest : Type 0 where
  pub request_type : RequestType
  pub endpoint : ℕ
  pub payload_length : ℕ

-- struct usbk_urb, as it is submitted; `offset` is that of `buffer` in the payload, a product of ints,
-- which is taken by its 32 bits.
pub record BulkUrb : Type 0 where
  pub offset : ℤ
  pub piece_length : ℕ
  pub short_not_ok : Bool
  pub bulk_continuation : Bool

-- What is left in the io request, and what is returned; `submitted` are the URBs the kernel took.
pub record Submission : Type 0 where
  pub submitted : List BulkUrb
  pub io_status : IoStatus
  pub priv : IoPrivate
  pub code : ℤ

unfoldable pub urbs_needed : ℕ → ℕ
urbs_needed total =
    if ltb 0 (total % max_bulk_intr_xfer)
    then total / max_bulk_intr_xfer + 1
    else total / max_bulk_intr_xfer

-- USB_ENDPOINT_DIR_MASK
unfoldable pub is_in : ℕ → Bool
is_in endpoint = ltb 127 (endpoint % 256)

-- The URB `i` of `count`
unfoldable pub setup_urb : Bool → BulkRequest → ℕ → ℕ → BulkUrb
unfolding is_in
setup_urb supports req count i =
    let total = req.payload_length in
    let enhanced = ltb 1 count && supports in
    record {
      offset = to_int ((i * max_bulk_intr_xfer) % 2 ^ 32);
      piece_length =
          if (i + 1 == count) && ltb 0 (total % max_bulk_intr_xfer)
          then total % max_bulk_intr_xfer
          else max_bulk_intr_xfer;
      short_not_ok = enhanced && is_in req.endpoint && ltb (i + 1) count;
      bulk_continuation = enhanced && ltb 0 i;
    }

-- The URBs that are taken, of `n` from `i` on, and the index and errno of the one that is not
unfoldable pub submit_from :
    (ℕ → Option ℕ) → Bool → BulkRequest → ℕ → ℕ → ℕ → List BulkUrb × Option (ℕ × ℕ)
unfolding setup_urb
submit_from answer supports req count zero i = ([], none)
submit_from answer supports req count (suc n) i =
    let rest = submit_from answer supports req count n (i + 1) in
    elim (answer i) [
      | none ↦ (setup_urb supports req count i ∷ rest.0, rest.1)
      | some errnum ↦ ([], some (i, errnum))
    ]

-- io->priv of a request of `count` URBs, before the first is submitted
unfoldable pub fresh_priv : List Bool → IoPrivate
fresh_priv flags = record {
  continuations = flags;
  urbs_freed = false;
  reap_action = normal;
  urbs_to_cancel = 0;
  urbs_to_reap = 0;
  bytes_transferred = 0;
  completions = [];
}

-- The flags of URBs `i` to `i + n - 1`
unfoldable pub flags_from : Bool → BulkRequest → ℕ → ℕ → ℕ → List Bool
unfolding setup_urb
flags_from supports req count zero i = []
flags_from supports req count (suc n) i =
    (setup_urb supports req count i).bulk_continuation ∷ flags_from supports req count n (i + 1)

-- A URB that is not reached keeps its cleared flags.
unfoldable pub clear_flags : ℕ → List Bool
clear_flags zero = []
clear_flags (suc n) = false ∷ clear_flags n

-- What follows the loop, or the URB that was not taken
unfoldable pub after_submit :
    (ℕ → Discard) → Bool → BulkRequest → ℕ → List BulkUrb × Option (ℕ × ℕ) → Submission
unfolding fresh_priv flags_from clear_flags handle_partial_submit translate_errno
after_submit kernel supports req count (urbs, none) = record {
  submitted = urbs;
  io_status = in_progress;
  priv = fresh_priv (flags_from supports req count count 0);
  code = success;
}
after_submit kernel supports req count (urbs, some (zero, errnum)) = record {
  submitted = urbs;
  io_status = completed_fail;
  priv = fresh_priv (flags_from supports req count 1 0 ++ clear_flags (count - 1));
  code = translate_errno errnum;
}
after_submit kernel supports req count (urbs, some (suc i, errnum)) = record {
  submitted = urbs;
  io_status = in_progress;
  priv = handle_partial_submit kernel (suc i) (
      fresh_priv
        (flags_from supports req count (suc i + 1) 0 ++ clear_flags (count - (suc i + 1))));
  code = success;
}

unfoldable pub linux_submit_bulk_intr :
    (ℕ → Option ℕ) → (ℕ → Discard) → Bool → BulkRequest → IoStatus → Submission
unfolding urbs_needed submit_from after_submit fresh_priv
linux_submit_bulk_intr answer kernel supports req status =
    let count = urbs_needed req.payload_length in
    let result =
      after_submit kernel supports req count (submit_from answer supports req count count 0) in
    elim req.request_type [
      | bulk ↦ result
      | interrupt ↦ result
      | other_type ↦ record {
        submitted = [];
        io_status = status;
        priv = fresh_priv [];
        code = badarg;
      }
    ]
