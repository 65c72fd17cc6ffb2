-- ===== src/Transfers/Invariant.antt =====
-- Every step on I/Os keeps the invariant of the lists.
use libopenusb.Prelude.{
  Bool-cases, length, ℤ, ℕ, suc, ◌^◌, ◌<◌, ◌≡◌, sym, subst, ◌∙◌, inl, inr, true, false, none, some,
  List, [], ◌∷◌, arith,
}
use libopenusb.Codes.{success}
use libopenusb.Run.{ok}
use libopenusb.Timeouts.{in_progress}
use libopenusb.Transfers.{
  Request, UsbiIo, State, XferOps, at, unlinked, usbi_free_io, has_result, usbi_io_complete,
}
use libopenusb.Transfers.Completion.{
  IsLive, IsDone, Good, alloc_io-Good, completing, io_complete-completing, taken_off-Good,
  completing-Good,
}
use libopenusb.Transfers.Waiting.{
  Out, null_handle, request, any_callback, returned, openusb_wait, openusb_poll,
}
use libopenusb.Transfers.Retrieval.{First, taken, taken-Good, poll-first}
use libopenusb.Transfers.Blocking.{wait-first}
use libopenusb.Transfers.Traces.{
  Step, allocated, marked, finished, polled, waited, released, Reached, start, onward, Each→NotIn,
  none-not-IsLive, none-not-IsDone, in_progress-not-IsDone, sync-not-IsDone, IsFresh-Good,
  set_async-Good,
}

io_complete-Good :
    (p : ℕ) (io : UsbiIo) (status : ℤ) (n : ℕ) (s s' : State)
    → Good s
    → s.ios p ≡ some io
    → io.status ≡ in_progress
    → usbi_io_complete p status n s ≡ ok s'
    → Good s'
unfolding usbi_io_complete
io_complete-Good p io status n s s' g e h r = elim (Bool-cases (has_result io.req.kind)) [
  | inr k ↦ absurd (ground (arith, e, k, r))
  | inl k ↦
      let out =
        Each→NotIn IsDone s.ios p s.complete_list (in_progress-not-IsDone (s.ios p) io e h)
          g.done in
      let q : ok (completing p io status n s) ≡ ok s' =
        sym (io_complete-completing p status n s io e k) ∙ r in
      subst Good {x = completing p io status n s} {y = s'} (cc q)
        (completing-Good p status n s io g out)
]

poll-Good :
    (ops : XferOps) (q : Request) (qs : List Request) (c : ℤ) (o : Out) (s s' : State)
    → Good s
    → openusb_poll ops true true (q ∷ qs) s ≡ ok (c, o, s')
    → Good s'
poll-Good ops q qs c o s s' g r = elim (poll-first ops q qs s g) [
  | inl (f, io, e, w, k, _) ↦
      let x : ok (success, request io.req.id, taken f.address s) ≡ ok (c, o, s') = sym w ∙ r in
      subst Good {x = taken f.address s} {y = s'} (cc x) k
  | inr (_, w) ↦
      let x : ok (success, null_handle, s) ≡ ok (c, o, s') = sym w ∙ r in
      subst Good {x = s} {y = s'} (cc x) g
]

wait-Good :
    (ops : XferOps) (fuel : ℕ) (q : Request) (qs : List Request) (c : ℤ) (o : Out) (s s' : State)
    → Good s
    → any_callback (q ∷ qs) ≡ false
    → First s (q ∷ qs) s.complete_list
    → length s.complete_list < 2 ^ 32
    → openusb_wait (suc fuel) ops true true (q ∷ qs) [] s ≡ ok (returned c o s')
    → Good s'
wait-Good ops fuel q qs c o s s' g n f l r =
    let (io, e, w) = wait-first ops q qs n fuel [] s f g l in
    let x : ok (returned success (request io.req.id) (taken f.address s)) ≡ ok (returned c o s') =
      sym w ∙ r in
    subst Good {x = taken f.address s} {y = s'} (cc x)
      (taken-Good f.address s f.before f.after g f.split).0

-- A synchronous I/O is freed.
abbrev released_state : ℕ → State → State
released_state p s = record (unlinked p s) { ios = at s.ios p none }

free_io-released :
    (ops : XferOps) (p : ℕ) (io : UsbiIo) (s : State)
    → s.ios p ≡ some io
    → io.async ≡ false
    → usbi_free_io ops (some p) s ≡ ok (released_state p s)
unfolding usbi_free_io
free_io-released ops p io s e a = ground (arith, e, a)

free_io-Good :
    (ops : XferOps) (p : ℕ) (io : UsbiIo) (s s' : State)
    → Good s
    → s.ios p ≡ some io
    → io.async ≡ false
    → usbi_free_io ops (some p) s ≡ ok s'
    → Good s'
unfolding unlinked
free_io-Good ops p io s s' g e a r =
    let out = Each→NotIn IsDone s.ios p s.complete_list (sync-not-IsDone (s.ios p) io e a) g.done in
    let x : ok (released_state p s) ≡ ok s' = sym (free_io-released ops p io s e a) ∙ r in
    let k = taken_off-Good p none s g out in
    subst Good {x = released_state p s} {y = s'} (cc x) (record {
      counted = k.counted;
      once = k.once;
      one_list = k.one_list;
      live = k.live;
      done = k.done;
    })

Step-Good : (ops : XferOps) (s s' : State) → Good s → Step ops s s' → Good s'
Step-Good ops s s' g (allocated p req n) =
    alloc_io-Good s p req g
      (Each→NotIn IsLive s.ios p s.io_head (none-not-IsLive (s.ios p) n) g.live)
      (Each→NotIn IsDone s.ios p s.complete_list (none-not-IsDone (s.ios p) n) g.done)
Step-Good ops s s' g (marked p io _ e h r) = set_async-Good p io s s' g e h r
Step-Good ops s s' g (finished p io status n _ e h r) = io_complete-Good p io status n s s' g e h r
Step-Good ops s s' g (polled q qs c o _ r) = poll-Good ops q qs c o s s' g r
Step-Good ops s s' g (waited fuel q qs c o _ n f l r) = wait-Good ops fuel q qs c o s s' g n f l r
Step-Good ops s s' g (released p io _ e a r) = free_io-Good ops p io s s' g e a r

-- In every state that these steps reach, `complete_count` is the length of `complete_list` by its 32
-- bits, each I/O there is there once, is on no other list, is completed, asynchronous and not freed,
-- and no I/O on `io_head` is freed.
pub Reached-Good : (ops : XferOps) (s : State) → Reached ops s → Good s
Reached-Good ops s (start _ f) = IsFresh-Good s f
Reached-Good ops s (onward t _ r step) = Step-Good ops t s (Reached-Good ops t r) step
