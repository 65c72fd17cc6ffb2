-- ===== src/Transfers/Soundness.antt =====
-- What of the lists of I/Os does not rest on `complete_count`, and that completing, taking, freeing and
-- marking an I/O keep it (openusb/src/io.c and api.c).
use libopenusb.Prelude.{
  Bool-cases, length, ℤ, ℕ, ◌%◌, ◌^◌, ◌≡◌, refl, sym, ap, subst, ◌∙◌, inl, inr, true, false, ◌&&◌,
  none, some, List, ◌∷◌, arith,
}
use libopenusb.Run.{ok}
use libopenusb.Timeouts.{in_progress, is_in_progress}
use libopenusb.LinkedList.Chains.{Distinct, Disjoint, Disjoint-sym}
use libopenusb.Transfers.{
  Request, UsbiIo, State, XferOps, at, remove, unlinked, cancel_if_needed, usbi_free_io, has_result,
  add_completion, run_callbacks, usbi_io_complete,
}
use libopenusb.Transfers.Queues.{
  NotIn-removed, Distinct-remove, Disjoint-remove, Each, Each-append, Each-remove, Each-at,
}
use libopenusb.Transfers.Completion.{
  IsLive, IsDone, Good, completing, io_complete-completing, completing-Good,
}
use libopenusb.Transfers.Submit.{set_async}
use libopenusb.Transfers.Waiting.{request, first_done, take_done}
use libopenusb.Transfers.Retrieval.{First, first_done-some, taken, take_done-taken, taken-Good}
use libopenusb.Transfers.Traces.{Each→NotIn, in_progress-not-IsDone, set_async-Good}

-- What is in order of the lists whatever `complete_count` is.
pub record Sound (s : State) : Type 0 where
  pub once : Distinct s.complete_list
  pub one_list : Disjoint s.complete_list s.io_head
  pub live : Each IsLive s.ios s.io_head
  pub done : Each IsDone s.ios s.complete_list

-- The state as it would be with its completions counted
abbrev pub recount : State → State
recount s = record s { complete_count = length s.complete_list % 2 ^ 32 }

pub Sound-Good : (s : State) → Sound s → Good (recount s)
Sound-Good s d = record {
  counted = refl;
  once = d.once;
  one_list = d.one_list;
  live = d.live;
  done = d.done;
}

pub Good-Sound : (s : State) → Good s → Sound s
Good-Sound s g = record { once = g.once; one_list = g.one_list; live = g.live; done = g.done }

-- `Sound` reads three fields.
pub Sound-same :
    (s t : State)
    → s.complete_list ≡ t.complete_list
    → s.io_head ≡ t.io_head
    → s.ios ≡ t.ios
    → Sound s
    → Sound t
Sound-same s t c h i d = record {
  once = subst Distinct c d.once;
  one_list = rw (← c, ← h) d.one_list;
  live = rw (← i, ← h) d.live;
  done = rw (← i, ← c) d.done;
}

completing-same :
    (p : ℕ) (io : UsbiIo) (status : ℤ) (n : ℕ) (s : State)
    → let a = completing p io status n (recount s) in
      let b = completing p io status n s in
      (a.complete_list ≡ b.complete_list) × (a.io_head ≡ b.io_head) × (a.ios ≡ b.ios)
unfolding run_callbacks add_completion unlinked
completing-same p io status n s = ground arith

pub completing-Sound :
    (p : ℕ) (io : UsbiIo) (status : ℤ) (n : ℕ) (s s' : State)
    → Sound s
    → s.ios p ≡ some io
    → io.status ≡ in_progress
    → usbi_io_complete p status n s ≡ ok s'
    → Sound s'
unfolding usbi_io_complete
completing-Sound p io status n s s' d e h r = elim (Bool-cases (has_result io.req.kind)) [
  | inr k ↦ absurd (ground (arith, e, k, r))
  | inl k ↦
      let out =
        Each→NotIn IsDone s.ios p s.complete_list (in_progress-not-IsDone (s.ios p) io e h)
          d.done in
      let q : ok (completing p io status n s) ≡ ok s' =
        sym (io_complete-completing p status n s io e k) ∙ r in
      let same = completing-same p io status n s in
      let g = completing-Good p status n (recount s) io (Sound-Good s d) out in
      subst Sound {x = completing p io status n s} {y = s'} (cc q) (
        Sound-same (completing p io status n (recount s)) (completing p io status n s) same.0 same.1
          same.2 (Good-Sound (completing p io status n (recount s)) g))
]

pub taken-Sound :
    (s : State) (handles : List Request)
    → Sound s
    → (f : First s handles s.complete_list) → Sound (taken f.address s)
unfolding unlinked
taken-Sound s handles d f =
    let g = (taken-Good f.address (recount s) f.before f.after (Sound-Good s d) f.split).0 in
    record { once = g.once; one_list = g.one_list; live = g.live; done = g.done }

pub first-taken :
    (ops : XferOps) (s : State) (handles : List Request) (f : First s handles s.complete_list)
    → Sound s
    → (first_done s handles s.complete_list ≡ ok (some f.address))
      × ((io : UsbiIo) × (take_done ops f.address s ≡ ok (request io.req.id, taken f.address s)))
unfolding Each IsDone
first-taken ops s handles f d =
    let (io, e, c, _) =
      ((Each-append IsDone s.ios f.before (f.address ∷ f.after)).0
        (subst (Each IsDone s.ios) f.split d.done)).1.0 in
    (
      ap (first_done s handles) f.split
          ∙ first_done-some s handles f.before f.address f.after f.others f.wanted,
      (io, take_done-taken ops f.address s io e c),
    )

pub freeing-Sound :
    (ops : XferOps) (p : ℕ) (io : UsbiIo) (s s' : State)
    → Sound s
    → s.ios p ≡ some io
    → (is_in_progress io.status && io.async) ≡ false
    → usbi_free_io ops (some p) s ≡ ok s'
    → Sound s'
unfolding usbi_free_io unlinked cancel_if_needed
freeing-Sound ops p io s s' d e n r =
    let freed = record (unlinked p s) { ios = at s.ios p none } in
    let w : usbi_free_io ops (some p) s ≡ ok freed = ground (arith, e, n) in
    let x : ok freed ≡ ok s' = sym w ∙ r in
    let done_left = remove p s.complete_list in
    let head_left = remove p s.io_head in
    let apart = Disjoint-remove p s.complete_list s.io_head d.one_list in
    subst Sound {x = freed} {y = s'} (cc x) (record {
      once = Distinct-remove p s.complete_list d.once;
      one_list =
          Disjoint-sym head_left done_left
            (Disjoint-remove p s.io_head done_left (Disjoint-sym done_left s.io_head apart));
      live =
          Each-at IsLive s.ios p none head_left (NotIn-removed p s.io_head)
            (Each-remove IsLive s.ios p s.io_head d.live);
      done =
          Each-at IsDone s.ios p none done_left (NotIn-removed p s.complete_list)
            (Each-remove IsDone s.ios p s.complete_list d.done);
    })

pub marking-Sound :
    (p : ℕ) (io : UsbiIo) (s s' : State)
    → Sound s
    → s.ios p ≡ some io
    → io.status ≡ in_progress
    → set_async p s ≡ ok s'
    → Sound s'
unfolding set_async
marking-Sound p io s s' d e h r =
    let io' : UsbiIo = record io { status = in_progress; async = true } in
    let t = record s { ios = at s.ios p (some io') } in
    let w : set_async p (recount s) ≡ ok (recount t) = ground (arith, e) in
    let r' : ok t ≡ ok s' = ground (arith, e, r) in
    let g = set_async-Good p io (recount s) (recount t) (Sound-Good s d) e h w in
    subst Sound {x = t} {y = s'} (cc r')
      (Sound-same (recount t) t refl refl refl (Good-Sound (recount t) g))
