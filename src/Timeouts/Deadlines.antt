-- ===== src/Timeouts/Deadlines.antt =====
-- Deadlines as microseconds: what the comparison, the deadline of a request and the wait compute.
use libopenusb.Prelude.{
  set, length-set, get_elem?, get_elem?-set, get_elem?-set_other, inl, inr, ◌==◌, if◌then◌else◌,
  length, pos, negsuc, ℕ, ◌+◌, ◌-◌, ◌*◌, ◌≤◌, ◌<◌, ◌≡◌, ◌↔◌, ◌⊎◌, true, List, [], ◌∷◌, arith, some,
}
use libopenusb.Run.{ok}
use libopenusb.Descriptors.InterfaceParser.{to_int}
use libopenusb.Timeouts.{
  Timeval, usbi_timeval_compare, io_timeout, io_deadline, in_progress, Io, zero_time, soonest_step,
  soonest_timeout, wait_until, relative, select_timeout, openusb_set_default_timeout,
  usbi_get_xfer_timeout,
}

-- The microseconds of a time.
abbrev pub micros : Timeval → ℕ
micros t = t.tv_sec * 1000000 + t.tv_usec

abbrev pub Normal : Timeval → Type 0
Normal t = t.tv_usec < 1000000

-- On times with less than a million microseconds, `usbi_timeval_compare` returns -1, 0 or 1 exactly
-- as the first time, in microseconds, is less than, equal to or more than the second.
pub timeval_compare-micros :
    (a b : Timeval)
    → Normal a
    → Normal b
    → ((usbi_timeval_compare a b ≡ negsuc 0) ↔ (micros a < micros b))
      × ((usbi_timeval_compare a b ≡ pos 0) ↔ (micros a ≡ micros b))
      × ((usbi_timeval_compare a b ≡ pos 1) ↔ (micros b < micros a))
unfolding usbi_timeval_compare
timeval_compare-micros a b na nb = (ground arith, ground arith, ground arith)

-- From a time with less than a million microseconds, the deadline of a request is as many
-- milliseconds later as its timeout says, 2^32 - 1 of them if it is unlimited, and it has at most a
-- million microseconds.
pub io_deadline-micros :
    (now : Timeval) (t : ℕ)
    → Normal now
    → (micros (io_deadline now t) ≡ micros now + io_timeout t * 1000)
      × ((io_deadline now t).tv_usec ≤ 1000000)
unfolding io_deadline io_timeout
io_deadline-micros now t n = (ground arith, ground arith)

-- Where now and the time chosen have less than a million microseconds, the time that `select` waits
-- is what is left of the time chosen, or 0 where that has passed; if none is chosen it is an hour.
pub select_timeout-micros :
    (ios : List Io) (now : Timeval)
    → Normal now
    → Normal (soonest_timeout zero_time ios)
    → micros (select_timeout ios now) ≡ (
        if (soonest_timeout zero_time ios).tv_sec == 0
        then 3600 * 1000000
        else micros (soonest_timeout zero_time ios) - micros now)
unfolding select_timeout wait_until relative usbi_timeval_compare
select_timeout-micros ios now n m = ground arith

-- Of two requests in progress, with less than a million microseconds each and the first not in
-- second 0, the thread chooses the time of the second, if that is later.
pub later_chosen :
    (a b : Timeval)
    → Normal a
    → Normal b
    → 0 < a.tv_sec
    → micros a < micros b
    → soonest_timeout zero_time
        (record { status = in_progress; tvo = a } ∷ record { status = in_progress; tvo = b } ∷ [])
      ≡ b
unfolding soonest_timeout soonest_step usbi_timeval_compare
later_chosen a b na nb p lt = ground arith

-- The entry of a type, after the setting.
entry_set :
    (timeouts : List ℕ) (set_type type t : ℕ)
    → length timeouts ≡ 5
    → 1 ≤ type
    → type ≤ 4
    → (set_type ≡ 0) ⊎ (set_type ≡ type)
    → get_elem? (openusb_set_default_timeout true set_type t timeouts).1 type ≡ some t
unfolding openusb_set_default_timeout
entry_set timeouts set_type type t n lo hi (inl e) =
    let l1 = set timeouts 1 t in
    let l2 = set l1 2 t in
    let l3 = set l2 3 t in
    ground (
      arith,
      e,
      length-set timeouts 1 t,
      length-set l1 2 t,
      length-set l2 3 t,
      get_elem?-set timeouts 1 t,
      get_elem?-set l1 2 t,
      get_elem?-set l2 3 t,
      get_elem?-set l3 4 t,
      get_elem?-set_other l1 2 1 t (λ q. omega arith),
      get_elem?-set_other l2 3 1 t (λ q. omega arith),
      get_elem?-set_other l3 4 1 t (λ q. omega arith),
      get_elem?-set_other l2 3 2 t (λ q. omega arith),
      get_elem?-set_other l3 4 2 t (λ q. omega arith),
      get_elem?-set_other l3 4 3 t (λ q. omega arith),
    )
entry_set timeouts set_type type t n lo hi (inr e) =
    ground (arith, e, get_elem?-set timeouts type t)

-- A default set for the type of a transfer, or for all types, is what a request of that type without
-- a timeout of its own gets, on a known handle with an entry for each type.
pub default_timeout-get :
    (timeouts : List ℕ) (set_type type t : ℕ)
    → length timeouts ≡ 5
    → 1 ≤ type
    → type ≤ 4
    → (set_type ≡ 0) ⊎ (set_type ≡ type)
    → usbi_get_xfer_timeout (openusb_set_default_timeout true set_type t timeouts).1 type 0
      ≡ ok (to_int t)
unfolding usbi_get_xfer_timeout
default_timeout-get timeouts set_type type t n lo hi which =
    ground (arith, entry_set timeouts set_type type t n lo hi which)
