-- ===== src/Transfers/Calls.antt =====
-- What every order of calls on I/Os leaves in order, waits that miss their request included
-- (openusb/src/io.c and api.c).
use libopenusb.Prelude.{
  ◌==◌, Bool-cases, ℤ, ℕ, zero, suc, ◌≡◌, refl, sym, subst, ◌∙◌, inl, inr, true, false, ◌&&◌, none,
  some, List, [], ◌∷◌,
}
use libopenusb.Codes.{success, badarg}
use libopenusb.Run.{ok}
use libopenusb.Timeouts.{in_progress, is_in_progress}
use libopenusb.Transfers.{
  Request, UsbiIo, State, XferOps, decrement, usbi_alloc_io, usbi_free_io, usbi_io_complete,
}
use libopenusb.Transfers.Completion.{IsLive, IsDone, alloc_io-Good}
use libopenusb.Transfers.Submit.{set_async}
use libopenusb.Transfers.Waiting.{
  Out, untouched, null_handle, request, any_callback, Waited, returned, blocked, wait_loop,
  openusb_wait, openusb_poll,
}
use libopenusb.Transfers.Retrieval.{first_done-none, First_cases, taken}
use libopenusb.Transfers.Traces.{
  IsFresh, Each→NotIn, none-not-IsLive, none-not-IsDone, IsFresh-Good,
}
use libopenusb.Transfers.Soundness.{
  Sound, recount, Sound-Good, Good-Sound, Sound-same, completing-Sound, taken-Sound, first-taken,
  freeing-Sound, marking-Sound,
}

-- The state of a wait that has returned, or that goes on waiting.
unfoldable pub left_by : Waited → State
left_by (returned c o s) = s
left_by (blocked s) = s

-- A call, on an I/O that is on its way where it says so; memory that is allocated is not in use. A wait
-- is the part of `openusb_wait` up to its return or to its sleep on `complete_cv`, after which it
-- begins again; an I/O that is freed needs no cancelling.
pub data Call (ops : XferOps) (s : State) : State → Type 0 where
  allocating :
      (p : ℕ) (req : Request) → s.ios p ≡ none → Call ops s (usbi_alloc_io (some p) req s).1
  marking :
      (p : ℕ) (io : UsbiIo) (s' : State)
      → s.ios p ≡ some io
      → io.status ≡ in_progress
      → set_async p s ≡ ok s'
      → Call ops s s'
  completing_io :
      (p : ℕ) (io : UsbiIo) (status : ℤ) (n : ℕ) (s' : State)
      → s.ios p ≡ some io
      → io.status ≡ in_progress
      → usbi_io_complete p status n s ≡ ok s'
      → Call ops s s'
  polling :
      (q : Request) (qs : List Request) (c : ℤ) (o : Out) (s' : State)
      → openusb_poll ops true true (q ∷ qs) s ≡ ok (c, o, s')
      → Call ops s s'
  waiting :
      (fuel : ℕ) (q : Request) (qs : List Request) (w : Waited)
      → openusb_wait fuel ops true true (q ∷ qs) [] s ≡ ok w
      → Call ops s (left_by w)
  freeing :
      (p : ℕ) (io : UsbiIo) (s' : State)
      → s.ios p ≡ some io
      → (is_in_progress io.status && io.async) ≡ false
      → usbi_free_io ops (some p) s ≡ ok s'
      → Call ops s s'

pub data Called (ops : XferOps) : State → Type 0 where
  begin : (s : State) → IsFresh s → Called ops s
  after : (s s' : State) → Called ops s → Call ops s s' → Called ops s'

polling-Sound :
    (ops : XferOps) (q : Request) (qs : List Request) (c : ℤ) (o : Out) (s s' : State)
    → Sound s
    → openusb_poll ops true true (q ∷ qs) s ≡ ok (c, o, s')
    → Sound s'
unfolding openusb_poll
polling-Sound ops q qs c o s s' d r = elim (First_cases s (q ∷ qs) s.complete_list d.done) [
  | inr k ↦
      let w : openusb_poll ops true true (q ∷ qs) s ≡ ok (success, null_handle, s) =
        rw (first_done-none s (q ∷ qs) s.complete_list k) refl in
      let x : ok (success, null_handle, s) ≡ ok (c, o, s') = sym w ∙ r in
      subst Sound {x = s} {y = s'} (cc x) d
  | inl f ↦
      let (found, io_e) = first-taken ops s (q ∷ qs) f d in
      let (io, e) = io_e in
      let w : openusb_poll ops true true (q ∷ qs) s
          ≡ ok (success, request io.req.id, taken f.address s) =
        rw (found, e) refl in
      let x : ok (success, request io.req.id, taken f.address s) ≡ ok (c, o, s') = sym w ∙ r in
      subst Sound {x = taken f.address s} {y = s'} (cc x) (taken-Sound s (q ∷ qs) d f)
]

wait_loop-Sound :
    (ops : XferOps) (handles : List Request) (fuel : ℕ) (s : State) (w : Waited)
    → Sound s
    → wait_loop fuel ops handles [] s ≡ ok w
    → Sound (left_by w)
unfolding wait_loop left_by
wait_loop-Sound ops handles zero s w d r = absurd (cc r)
wait_loop-Sound ops handles (suc fuel) s w d r = elim (Bool-cases (s.complete_count == 0)) [
  | inl z ↦
      let e : wait_loop (suc fuel) ops handles [] s ≡ ok (blocked s) = rw z refl in
      let x : ok (blocked s) ≡ ok w = sym e ∙ r in
      subst (λ v. Sound (left_by v)) {x = blocked s} {y = w} (cc x) d
  | inr z ↦ elim (First_cases s handles s.complete_list d.done) [
    | inr k ↦
        let s1 = record s { complete_count = decrement s.complete_count } in
        let e : wait_loop (suc fuel) ops handles [] s ≡ wait_loop fuel ops handles [] s1 =
          rw (z, first_done-none s handles s.complete_list k) refl in
        wait_loop-Sound ops handles fuel s1 w (Sound-same s s1 refl refl refl d) (sym e ∙ r)
    | inl f ↦
        let (found, io_t) = first-taken ops s handles f d in
        let (io, t) = io_t in
        let v = returned success (request io.req.id) (taken f.address s) in
        let e : wait_loop (suc fuel) ops handles [] s ≡ ok v = rw (z, found, t) refl in
        let x : ok v ≡ ok w = sym e ∙ r in
        subst (λ u. Sound (left_by u)) {x = v} {y = w} (cc x) (taken-Sound s handles d f)
  ]
]

waiting-Sound :
    (ops : XferOps) (fuel : ℕ) (q : Request) (qs : List Request) (s : State) (w : Waited)
    → Sound s
    → openusb_wait fuel ops true true (q ∷ qs) [] s ≡ ok w
    → Sound (left_by w)
unfolding openusb_wait left_by
waiting-Sound ops fuel q qs s w d r = elim (Bool-cases (any_callback (q ∷ qs))) [
  | inr n ↦
      let e : openusb_wait fuel ops true true (q ∷ qs) [] s ≡ wait_loop fuel ops (q ∷ qs) [] s =
        rw n refl in
      wait_loop-Sound ops (q ∷ qs) fuel s w d (sym e ∙ r)
  | inl y ↦
      let v = returned badarg untouched s in
      let e : openusb_wait fuel ops true true (q ∷ qs) [] s ≡ ok v = rw y refl in
      let x : ok v ≡ ok w = sym e ∙ r in subst (λ u. Sound (left_by u)) {x = v} {y = w} (cc x) d
]

Call-Sound : (ops : XferOps) (s s' : State) → Sound s → Call ops s s' → Sound s'
unfolding usbi_alloc_io
Call-Sound ops s s' d (allocating p req n) =
    let g =
      alloc_io-Good (recount s) p req (Sound-Good s d)
        (Each→NotIn IsLive s.ios p s.io_head (none-not-IsLive (s.ios p) n) d.live)
        (Each→NotIn IsDone s.ios p s.complete_list (none-not-IsDone (s.ios p) n) d.done) in
    record { once = g.once; one_list = g.one_list; live = g.live; done = g.done }
Call-Sound ops s s' d (marking p io _ e h r) = marking-Sound p io s s' d e h r
Call-Sound ops s s' d (completing_io p io status n _ e h r) =
    completing-Sound p io status n s s' d e h r
Call-Sound ops s s' d (polling q qs c o _ r) = polling-Sound ops q qs c o s s' d r
Call-Sound ops s _ d (waiting fuel q qs w r) = waiting-Sound ops fuel q qs s w d r
Call-Sound ops s s' d (freeing p io _ e n r) = freeing-Sound ops p io s s' d e n r

-- In every state that is reached from a library handle without requests by allocating I/Os, marking
-- them as asynchronous, completing those that are on their way, polls and waits for any requests, a
-- wait that finds none and sleeps included, and by freeing I/Os that need no cancelling: each I/O on
-- `complete_list` is there once, is not on `io_head`, is completed, asynchronous and not freed, and no
-- I/O on `io_head` is freed.
pub Called-Sound : (ops : XferOps) (s : State) → Called ops s → Sound s
Called-Sound ops s (begin _ f) = Good-Sound s (IsFresh-Good s f)
Called-Sound ops s (after t _ r call) = Call-Sound ops t s (Called-Sound ops t r) call
