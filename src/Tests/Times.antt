-- ===== src/Tests/Times.antt =====
-- Deadlines and waits at small times.
use libopenusb.Prelude.{
  ◌==◌, if◌then◌else◌, pos, negsuc, ◌+◌, ◌-◌, ◌*◌, ◌≤◌, ◌<◌, ◌≡◌, refl, ◌↔◌, inl, true, List, [],
  ◌∷◌, arith,
}
use libopenusb.Run.{ok}
use libopenusb.Descriptors.InterfaceParser.{to_int}
use libopenusb.Timeouts.{
  Timeval, usbi_timeval_compare, io_timeout, io_deadline, in_progress, cancel, Io, zero_time,
  soonest_step, soonest_timeout, select_timeout, openusb_set_default_timeout, usbi_get_xfer_timeout,
}
use libopenusb.Timeouts.Deadlines.{
  micros, timeval_compare-micros, io_deadline-micros, select_timeout-micros, later_chosen,
  default_timeout-get,
}

abbrev early : Timeval
early = record { tv_sec = 10; tv_usec = 900000 }

abbrev late : Timeval
late = record { tv_sec = 12; tv_usec = 100 }

timeval_compare-micros_example :
    ((usbi_timeval_compare early late ≡ negsuc 0) ↔ (micros early < micros late))
    × ((usbi_timeval_compare early late ≡ pos 0) ↔ (micros early ≡ micros late))
    × ((usbi_timeval_compare early late ≡ pos 1) ↔ (micros late < micros early))
timeval_compare-micros_example = timeval_compare-micros early late (omega arith) (omega arith)

io_deadline-micros_example :
    (micros (io_deadline early 1250) ≡ micros early + io_timeout 1250 * 1000)
    × ((io_deadline early 1250).tv_usec ≤ 1000000)
io_deadline-micros_example = io_deadline-micros early 1250 (omega arith)

abbrev waiting : List Io
waiting = record { status = cancel; tvo = early } ∷ record { status = in_progress; tvo = late } ∷ []

soonest_late : soonest_timeout zero_time waiting ≡ late
unfolding soonest_timeout soonest_step usbi_timeval_compare
soonest_late = refl

select_timeout-micros_example : micros (select_timeout waiting early) ≡ (
    if (soonest_timeout zero_time waiting).tv_sec == 0
    then 3600 * 1000000
    else micros (soonest_timeout zero_time waiting) - micros early)
select_timeout-micros_example =
    select_timeout-micros waiting early (omega arith) (rw soonest_late (omega arith))

later_chosen_example :
    soonest_timeout zero_time (
      record { status = in_progress; tvo = early }
      ∷ record { status = in_progress; tvo = late }
      ∷ [])
    ≡ late
later_chosen_example =
    later_chosen early late (omega arith) (omega arith) (omega arith) (omega arith)

default_timeout_run :
    usbi_get_xfer_timeout (openusb_set_default_timeout true 0 500 (0 ∷ 0 ∷ 0 ∷ 0 ∷ 0 ∷ [])).1 3 0
    ≡ ok (to_int 500)
default_timeout_run =
    default_timeout-get (0 ∷ 0 ∷ 0 ∷ 0 ∷ 0 ∷ []) 0 3 500 refl (omega arith) (omega arith) (inl refl)
