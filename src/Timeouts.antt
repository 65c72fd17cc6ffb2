-- ===== src/Timeouts.antt =====
-- Timeouts of transfers: their defaults (openusb/src/usb.c and api.c), the deadline of a request
-- (openusb/src/io.c), and the waiting of the thread that ends requests (`timeout_thread` of usb.c).
-- Times are not negative; seconds are not bounded here.
pub mod Deadlines
use libopenusb.Prelude.{
  ltb, ◌==◌, if◌then◌else◌, get_elem?, set, ℤ, pos, negsuc, is_neg, ℕ, ◌+◌, ◌-◌, ◌*◌, ◌/◌, ◌%◌, ◌^◌,
  Bool, true, false, not, ◌&&◌, ◌||◌, none, some, List, [], ◌∷◌,
}
use libopenusb.Codes.{success, badarg, invalid_handle}
use libopenusb.Run.{Run, ok, fault}
use libopenusb.Descriptors.InterfaceParser.{to_int}

pub record Timeval : Type 0 where
  pub tv_sec : ℕ
  pub tv_usec : ℕ

unfoldable pub usbi_timeval_compare : Timeval → Timeval → ℤ
usbi_timeval_compare a b =
    if ltb a.tv_sec b.tv_sec
    then negsuc 0
    else if ltb b.tv_sec a.tv_sec
    then pos 1
    else if ltb a.tv_usec b.tv_usec
    then negsuc 0
    else if ltb b.tv_usec a.tv_usec
    then pos 1
    else pos 0

-- The milliseconds that `usbi_alloc_io` counts: 0 is set to a big value.
unfoldable pub io_timeout : ℕ → ℕ
io_timeout timeout = if timeout == 0 then 2 ^ 32 - 1 else timeout

-- io->tvo, from the time of `gettimeofday`
unfoldable pub io_deadline : Timeval → ℕ → Timeval
unfolding io_timeout
io_deadline now timeout =
    let t = io_timeout timeout in
    let sec = now.tv_sec + t / 1000 in
    let usec = now.tv_usec + t % 1000 * 1000 in
    if ltb 1000000 usec
    then record { tv_sec = sec + 1; tv_usec = usec - 1000000 }
    else record { tv_sec = sec; tv_usec = usec }

-- enum usbi_io_status
pub data IoStatus : Type 0 where
  initial : IoStatus
  in_progress : IoStatus
  cancel : IoStatus
  completed : IoStatus
  completed_fail : IoStatus
  timeout : IoStatus

-- struct usbi_io, as far as the thread reads it
pub record Io : Type 0 where
  pub status : IoStatus
  pub tvo : Timeval

abbrev pub is_in_progress : IoStatus → Bool
is_in_progress in_progress = true
is_in_progress _ = false

abbrev pub zero_time : Timeval
zero_time = record { tv_sec = 0; tv_usec = 0 }

-- Is it not 0?
abbrev pub truth : ℤ → Bool
truth (pos n) = not (n == 0)
truth (negsuc n) = true

-- One request of the loop that looks for the next timeout; the comparison is used as a truth value.
unfoldable pub soonest_step : Timeval → Io → Timeval
soonest_step tvo io =
    if not (is_in_progress io.status)
    then tvo
    else if not (io.tvo.tv_sec == 0) && (tvo.tv_sec == 0 || truth (usbi_timeval_compare io.tvo tvo))
    then io.tvo
    else tvo

unfoldable pub soonest_timeout : Timeval → List Io → Timeval
soonest_timeout tvo [] = tvo
soonest_timeout tvo (io ∷ ios) = soonest_timeout (soonest_step tvo io) ios

-- The end of the wait: an hour from now if there is none, and not before now.
unfoldable pub wait_until : Timeval → Timeval → Timeval
wait_until tvo now =
    if tvo.tv_sec == 0
    then record { tv_sec = now.tv_sec + 60 * 60; tv_usec = now.tv_usec }
    else if is_neg (usbi_timeval_compare tvo now)
    then now
    else tvo

-- The time relative to now; `until` is not before it, so the subtractions do not fall below 0.
unfoldable pub relative : Timeval → Timeval → Timeval
relative until now =
    if ltb until.tv_usec now.tv_usec
    then record {
      tv_sec = until.tv_sec - now.tv_sec - 1;
      tv_usec = until.tv_usec + (1000000 - now.tv_usec);
    }
    else record { tv_sec = until.tv_sec - now.tv_sec; tv_usec = until.tv_usec - now.tv_usec }

-- The time that `select` is given.
unfoldable pub select_timeout : List Io → Timeval → Timeval
select_timeout ios now = relative (wait_until (soonest_timeout zero_time ios) now) now

-- The requests that the thread completes with OPENUSB_IO_TIMEOUT at a time.
unfoldable pub timed_out : Timeval → List Io → List Io
timed_out now [] = []
timed_out now (io ∷ ios) =
    let rest = timed_out now ios in
    elim (usbi_timeval_compare io.tvo now) [
      | pos n ↦ if n == 0 then io ∷ rest else rest
      | negsuc n ↦ io ∷ rest
    ]

-- The result and the handle's timeouts, by the type of a transfer (0 is all types).
unfoldable pub openusb_set_default_timeout : Bool → ℕ → ℕ → List ℕ → ℤ × List ℕ
openusb_set_default_timeout known type t timeouts =
    if not known
    then (invalid_handle, timeouts)
    else if ltb 4 type
    then (badarg, timeouts)
    else if type == 0
    then (success, set (set (set (set timeouts 1 t) 2 t) 3 t) 4 t)
    else (success, set timeouts type t)

-- A request: its type, and the timeout of its transfer, by the 32 bits.
unfoldable pub usbi_get_xfer_timeout : List ℕ → ℕ → ℕ → Run ℤ
usbi_get_xfer_timeout timeouts type t =
    if type == 0 || ltb 4 type
    then ok (negsuc 0)
    else let requested = if type == 4 then 0 else t in
      if requested == 2 ^ 32 - 1
      then ok (negsuc 0)
      else if requested == 0
      then elim (get_elem? timeouts type) [ none ↦ fault | some d ↦ ok (to_int d) ]
      else ok (to_int requested)
