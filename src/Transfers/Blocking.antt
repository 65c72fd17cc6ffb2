-- ===== src/Transfers/Blocking.antt =====
-- When `openusb_wait` of openusb/src/api.c returns, and when it goes on waiting.
use libopenusb.Prelude.{
  ◌==◌, length, length-append, ℕ, zero, suc, ◌+◌, ◌-◌, ◌%◌, ◌^◌, ◌<◌, ◌≡◌, refl, sym, ap, subst,
  ◌∙◌, ◌≢◌, true, false, some, List, [], ◌∷◌, arith,
}
use libopenusb.Codes.{success}
use libopenusb.Run.{ok}
use libopenusb.Transfers.{Request, UsbiIo, State, XferOps, decrement}
use libopenusb.Transfers.Queues.{Each, Each-append}
use libopenusb.Transfers.Completion.{IsDone, Good}
use libopenusb.Transfers.Waiting.{
  request, any_callback, first_done, returned, blocked, wait_loop, openusb_wait,
}
use libopenusb.Transfers.Retrieval.{
  IsOther, First, first_done-none, first_done-some, taken, take_done-taken,
}

module _ (ops : XferOps) (handles : List Request) where
  loop-first :
      (fuel : ℕ) (events : List (State → State)) (s : State) (f : First s handles s.complete_list)
      → Good s
      → s.complete_count ≢ 0
      → (io : UsbiIo) × (s.ios f.address ≡ some io)
        × (wait_loop (suc fuel) ops handles events s
            ≡ ok (returned success (request io.req.id) (taken f.address s)))
  unfolding wait_loop Each IsDone
  loop-first fuel events s f g n =
      let d =
        ((Each-append IsDone s.ios f.before (f.address ∷ f.after)).0
          (subst (Each IsDone s.ios) f.split g.done)).1.0 in
      let (io, e, c, _) = d in
      let found =
        ap (first_done s handles) f.split
        ∙ first_done-some s handles f.before f.address f.after f.others f.wanted in
      let z : (s.complete_count == 0) ≡ false = ground arith in
      (io, e, rw (z, found, take_done-taken ops f.address s io e c) refl)

  loop-blocks :
      (fuel : ℕ) (s : State)
      → s.complete_count ≡ 0
      → wait_loop (suc fuel) ops handles [] s ≡ ok (blocked s)
  unfolding wait_loop
  loop-blocks fuel s e = let z : (s.complete_count == 0) ≡ true = ground arith in rw z refl

  -- Each round takes one off the count, and the list stays as it is.
  loop-counts_down :
      (fuel n : ℕ) (s : State)
      → Each (IsOther handles) s.ios s.complete_list
      → n < fuel
      → n < 2 ^ 32
      → wait_loop fuel ops handles [] (record s { complete_count = n })
        ≡ ok (blocked (record s { complete_count = 0 }))
  unfolding wait_loop decrement
  loop-counts_down zero n s o h b = elim h [ ]
  loop-counts_down (suc fuel) zero s o h b = refl
  loop-counts_down (suc fuel) (suc n) s o h b =
      let z : (suc n == 0) ≡ false = ground arith in
      let d : (suc n + (2 ^ 32 - 1)) % 2 ^ 32 ≡ n = omega arith in
      rw
        (
          z,
          first_done-none (record s { complete_count = suc n }) handles s.complete_list o,
          d,
          loop-counts_down fuel n s o (omega arith) (omega arith),
        )
        refl

module _ (ops : XferOps) (q : Request) (qs : List Request)
    (no_callback : any_callback (q ∷ qs) ≡ false) where
  wait-loop :
      (fuel : ℕ) (events : List (State → State)) (s : State)
      → openusb_wait fuel ops true true (q ∷ qs) events s ≡ wait_loop fuel ops (q ∷ qs) events s
  unfolding openusb_wait
  wait-loop fuel events s = rw no_callback refl

  -- If a request waited for is completed, `openusb_wait` returns the first of them at once, with its
  -- I/O off the list and freed.
  pub wait-first :
      (fuel : ℕ) (events : List (State → State)) (s : State) (f : First s (q ∷ qs) s.complete_list)
      → Good s
      → length s.complete_list < 2 ^ 32
      → (io : UsbiIo) × (s.ios f.address ≡ some io)
        × (openusb_wait (suc fuel) ops true true (q ∷ qs) events s
            ≡ ok (returned success (request io.req.id) (taken f.address s)))
  wait-first fuel events s f g l =
      let some_done : 0 < length s.complete_list =
        omega (arith, ap length f.split, length-append f.before (f.address ∷ f.after)) in
      let n : s.complete_count ≢ 0 = omega (arith, g.counted) in
      let (io, e, w) = loop-first ops (q ∷ qs) fuel events s f g n in
      (io, e, wait-loop (suc fuel) events s ∙ w)

  -- With nothing counted, `openusb_wait` sleeps until another thread completes a request that it
  -- waits for, and then returns that request.
  pub wait-event :
      (fuel : ℕ) (e : State → State) (events : List (State → State)) (s : State)
      (f : First (e s) (q ∷ qs) (e s).complete_list)
      → s.complete_count ≡ 0
      → Good (e s)
      → length (e s).complete_list < 2 ^ 32
      → (io : UsbiIo) × ((e s).ios f.address ≡ some io)
        × (openusb_wait (suc (suc fuel)) ops true true (q ∷ qs) (e ∷ events) s
            ≡ ok (returned success (request io.req.id) (taken f.address (e s))))
  unfolding wait_loop
  wait-event fuel e events s f z g l =
      let (io, p, w) = wait-first fuel events (e s) f g l in
      let t : (s.complete_count == 0) ≡ true = ground arith in
      let w' = sym (wait-loop (suc fuel) events (e s)) ∙ w in
      (io, p, wait-loop (suc (suc fuel)) (e ∷ events) s ∙ rw t w')

  -- `openusb_wait` for requests of which none is completed counts down the completions of others, with
  -- a round for each: it then waits for ever, and so does every later wait for the others, which are
  -- still on the list.
  pub wait-lost :
      (fuel later : ℕ) (s : State) (other : Request) (others : List Request)
      → Good s
      → Each (IsOther (q ∷ qs)) s.ios s.complete_list
      → length s.complete_list < 2 ^ 32
      → length s.complete_list < fuel
      → any_callback (other ∷ others) ≡ false
      → (openusb_wait fuel ops true true (q ∷ qs) [] s
          ≡ ok (blocked (record s { complete_count = 0 })))
        × (openusb_wait
              (suc later)
              ops
              true
              true
              (other ∷ others)
              []
              (record s { complete_count = 0 })
            ≡ ok (blocked (record s { complete_count = 0 })))
  unfolding openusb_wait
  wait-lost fuel later s other others g o l h c =
      let n : s.complete_count ≡ length s.complete_list = omega (arith, g.counted) in
      (
        wait-loop fuel [] s
            ∙ ap (λ k. wait_loop fuel ops (q ∷ qs) [] (record s { complete_count = k })) n
            ∙ loop-counts_down ops (q ∷ qs) fuel (length s.complete_list) s o h l,
        rw c (loop-blocks ops (other ∷ others) later (record s { complete_count = 0 }) refl),
      )
