-- ===== src/Urbs.antt =====
-- The requests that the Linux backend gives to the kernel, openusb/src/linux.c: a transfer is split
-- into URBs, which the kernel completes one by one. What the kernel answers to the discarding of a URB
-- is given, and `usbi_io_complete` is recorded with its code and length.
pub mod Courses
pub mod ShortTransfers
pub mod Splitting
use libopenusb.Prelude.{
  ltb, ◌==◌, if◌then◌else◌, length, drop, ℤ, negsuc, ℕ, zero, suc, ◌+◌, ◌%◌, ◌^◌, Bool, true, false,
  ◌&&◌, List, [], ◌∷◌,
}
use libopenusb.Codes.{success, no_resources, badarg, unknown_device}
use libopenusb.Transfers.{increment, decrement}

-- urb->status: 0, -EREMOTEIO, -ENOENT, -ECONNRESET, -EPIPE, or another error
pub data UrbStatus : Type 0 where
  done : UrbStatus
  remote_io : UrbStatus
  no_entry : UrbStatus
  conn_reset : UrbStatus
  broken_pipe : UrbStatus
  other : UrbStatus

-- struct usbk_urb; `continuation` is USBK_URB_BULK_CONTINUATION.
pub record Urb : Type 0 where
  pub status : UrbStatus
  pub actual_length : ℕ
  pub buffer_length : ℕ
  pub continuation : Bool

-- linux_reap_action_t
pub data ReapAction : Type 0 where
  normal : ReapAction
  submit_failed : ReapAction
  canceled : ReapAction
  completed_early : ReapAction
  timed_out : ReapAction
  stall : ReapAction
  unknown_failure : ReapAction

-- IOCTL_USB_DISCARDURB: it is cancelled, or has ended already (EINVAL), or another error.
pub data Discard : Type 0 where
  cancelled : Discard
  ended : Discard
  failed : Discard

-- struct usbi_io_private, with the URBs' flags, whether `urbs` is freed, and the calls of
-- `usbi_io_complete`, the last first; the counters are taken by their 32 bits.
pub record IoPrivate : Type 0 where
  pub continuations : List Bool
  pub urbs_freed : Bool
  pub reap_action : ReapAction
  pub urbs_to_cancel : ℕ
  pub urbs_to_reap : ℕ
  pub bytes_transferred : ℕ
  pub completions : List (ℤ × ℕ)

abbrev pub num_urbs : IoPrivate → ℕ
num_urbs io = length io.continuations

-- OPENUSB_IO_STALL, OPENUSB_IO_TIMEOUT and OPENUSB_IO_CANCELED
abbrev pub io_stall : ℤ
io_stall = negsuc 49

abbrev pub io_timeout : ℤ
io_timeout = negsuc 61

abbrev pub io_canceled : ℤ
io_canceled = negsuc 62

abbrev sys_failure : ℤ
sys_failure = negsuc 12

-- translate_errno, by the numbers of Linux
unfoldable pub translate_errno : ℕ → ℤ
translate_errno errnum =
    if errnum == 1
    then negsuc 6
    else if errnum == 22
    then badarg
    else if errnum == 12
    then no_resources
    else if errnum == 13
    then negsuc 8
    else if errnum == 16
    then negsuc 7
    else if errnum == 32
    then io_stall
    else if errnum == 19
    then unknown_device
    else sys_failure

unfoldable pub count_discard : Discard → IoPrivate → IoPrivate
count_discard cancelled io = record io { urbs_to_cancel = increment io.urbs_to_cancel }
count_discard ended io = record io { urbs_to_reap = increment io.urbs_to_reap }
count_discard failed io = io

-- The first `n` URBs are discarded, from `i` on.
unfoldable pub discard_from : (ℕ → Discard) → ℕ → ℕ → IoPrivate → IoPrivate
unfolding count_discard
discard_from kernel zero i io = io
discard_from kernel (suc n) i io = discard_from kernel n (i + 1) (count_discard (kernel i) io)

unfoldable pub discard_urbs : (ℕ → Discard) → ReapAction → IoPrivate → IoPrivate
unfolding discard_from
discard_urbs kernel action io =
    discard_from kernel (num_urbs io) 0 (record io { reap_action = action })

unfoldable pub handle_partial_submit : (ℕ → Discard) → ℕ → IoPrivate → IoPrivate
unfolding discard_from
handle_partial_submit kernel idx io =
    discard_from kernel idx 0 (record io { reap_action = submit_failed })

-- The URBs that follow: a continuation is cancelled by the kernel itself.
unfoldable pub partial_from : (ℕ → Discard) → List Bool → ℕ → IoPrivate → IoPrivate
unfolding count_discard
partial_from kernel [] i io = io
partial_from kernel (c ∷ cs) i io =
    partial_from kernel cs (i + 1) (count_discard (if c then cancelled else kernel i) io)

unfoldable pub handle_partial_xfer : (ℕ → Discard) → ℕ → ReapAction → IoPrivate → IoPrivate
unfolding partial_from
handle_partial_xfer kernel idx action io =
    partial_from kernel (drop idx io.continuations) idx (record io { reap_action = action })

unfoldable pub completes : ℤ → IoPrivate → IoPrivate
completes code io = record io { completions = (code, io.bytes_transferred) ∷ io.completions }

abbrev pub free_urbs : IoPrivate → IoPrivate
free_urbs io = record io { urbs_freed = true }

-- The last of the URBs that were awaited
unfoldable pub last_awaited : IoPrivate → IoPrivate
unfolding completes
last_awaited io = elim io.reap_action [
  | stall ↦ io
  | canceled ↦ free_urbs (completes io_canceled io)
  | completed_early ↦ free_urbs (completes success io)
  | timed_out ↦ free_urbs (completes io_timeout io)
  | unknown_failure ↦ free_urbs (completes sys_failure io)
  | submit_failed ↦ free_urbs (completes sys_failure io)
  | normal ↦ free_urbs (completes sys_failure io)
]

-- The counters after a URB of a request that is ending
unfoldable pub count_reaped : Urb → IoPrivate → IoPrivate
count_reaped urb io = elim urb.status [
  | no_entry ↦
      if io.urbs_to_cancel == 0
      then io
      else record io { urbs_to_cancel = decrement io.urbs_to_cancel }
  | conn_reset ↦
      if urb.continuation then record io { urbs_to_cancel = decrement io.urbs_to_cancel } else io
  | done ↦
      if io.urbs_to_reap == 0 then io else record io { urbs_to_reap = decrement io.urbs_to_reap }
  | remote_io ↦ io
  | broken_pipe ↦ io
  | other ↦ io
]

abbrev pub is_normal : ReapAction → Bool
is_normal normal = true
is_normal _ = false

unfoldable pub reap_awaited : Urb → IoPrivate → IoPrivate
unfolding count_reaped last_awaited
reap_awaited urb io =
    let io1 = count_reaped urb io in
    if io1.urbs_to_reap == 0 && io1.urbs_to_cancel == 0 then last_awaited io1 else io1

-- A URB that has succeeded, whole or short
unfoldable pub reap_success : (ℕ → Discard) → ℕ → Urb → IoPrivate → IoPrivate
unfolding completes handle_partial_xfer
reap_success kernel index urb io =
    if index + 1 == num_urbs io
    then free_urbs (completes success io)
    else if ltb urb.actual_length urb.buffer_length
    then handle_partial_xfer kernel (index + 1) completed_early io
    else io

-- A URB of a request on which nothing has failed
unfoldable pub reap_normal : (ℕ → Discard) → ℕ → Urb → IoPrivate → IoPrivate
unfolding completes handle_partial_xfer reap_success
reap_normal kernel index urb io = elim urb.status [
  | done ↦ reap_success kernel index urb io
  | remote_io ↦ reap_success kernel index urb io
  | broken_pipe ↦ completes io_stall (free_urbs (handle_partial_xfer kernel (index + 1) stall io))
  | no_entry ↦ handle_partial_xfer kernel (index + 1) unknown_failure io
  | conn_reset ↦ handle_partial_xfer kernel (index + 1) unknown_failure io
  | other ↦ handle_partial_xfer kernel (index + 1) unknown_failure io
]

unfoldable pub count_bytes : Urb → IoPrivate → IoPrivate
count_bytes urb io = elim urb.status [
  | done ↦ record io { bytes_transferred = (io.bytes_transferred + urb.actual_length) % 2 ^ 32 }
  | remote_io ↦ record io {
    bytes_transferred = (io.bytes_transferred + urb.actual_length) % 2 ^ 32;
  }
  | no_entry ↦ io
  | conn_reset ↦ io
  | broken_pipe ↦ io
  | other ↦ io
]

unfoldable pub handle_bulk_intr_complete : (ℕ → Discard) → ℕ → Urb → IoPrivate → IoPrivate
unfolding count_bytes reap_awaited reap_normal
handle_bulk_intr_complete kernel index urb io =
    let io1 = count_bytes urb io in
    if is_normal io1.reap_action then reap_normal kernel index urb io1 else reap_awaited urb io1

-- A control request, which is one URB; its length is that of the URB.
unfoldable pub control_complete : Urb → IoPrivate → IoPrivate
unfolding completes
control_complete urb io =
    let io1 = record io { bytes_transferred = urb.actual_length } in
    free_urbs (elim urb.status [
      | done ↦ completes success io1
      | no_entry ↦ elim io.reap_action [
        | canceled ↦ completes io_canceled io1
        | timed_out ↦ completes io_timeout io1
        | normal ↦ completes sys_failure io1
        | submit_failed ↦ completes sys_failure io1
        | completed_early ↦ completes sys_failure io1
        | stall ↦ completes sys_failure io1
        | unknown_failure ↦ completes sys_failure io1
      ]
      | remote_io ↦ io
      | conn_reset ↦ io
      | broken_pipe ↦ io
      | other ↦ io
    ])
