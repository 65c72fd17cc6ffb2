-- ===== src/Transfers/Traces.antt =====
-- The lives of I/Os as steps: allocated, marked as asynchronous, completed by a backend, taken by
-- `openusb_poll` or `openusb_wait`, and freed (openusb/src/io.c and api.c).
use libopenusb.Prelude.{
  ◌==◌, Bool-cases, length, ℤ, ℕ, suc, ◌^◌, ◌<◌, ◌≡◌, refl, sym, subst, inl, inr, true, false,
  Option, none, some, List, [], ◌∷◌, arith,
}
use libopenusb.Run.{ok}
use libopenusb.Timeouts.{in_progress}
use libopenusb.LinkedList.Chains.{NotIn, Distinct, Disjoint}
use libopenusb.Transfers.{
  Request, UsbiIo, State, XferOps, at, usbi_alloc_io, usbi_free_io, usbi_io_complete,
}
use libopenusb.Transfers.Queues.{Each, Each-at}
use libopenusb.Transfers.Completion.{IsLive, IsDone, Good}
use libopenusb.Transfers.Submit.{set_async}
use libopenusb.Transfers.Waiting.{Out, any_callback, returned, openusb_wait, openusb_poll}
use libopenusb.Transfers.Retrieval.{First}

-- One call, on an I/O that is on its way where it says so; memory that is allocated is not in use. A
-- wait here finds a request at once, and the I/Os that are freed are synchronous.
pub data Step (ops : XferOps) (s : State) : State → Type 0 where
  allocated : (p : ℕ) (req : Request) → s.ios p ≡ none → Step ops s (usbi_alloc_io (some p) req s).1
  marked :
      (p : ℕ) (io : UsbiIo) (s' : State)
      → s.ios p ≡ some io
      → io.status ≡ in_progress
      → set_async p s ≡ ok s'
      → Step ops s s'
  finished :
      (p : ℕ) (io : UsbiIo) (status : ℤ) (n : ℕ) (s' : State)
      → s.ios p ≡ some io
      → io.status ≡ in_progress
      → usbi_io_complete p status n s ≡ ok s'
      → Step ops s s'
  polled :
      (q : Request) (qs : List Request) (c : ℤ) (o : Out) (s' : State)
      → openusb_poll ops true true (q ∷ qs) s ≡ ok (c, o, s')
      → Step ops s s'
  waited :
      (fuel : ℕ) (q : Request) (qs : List Request) (c : ℤ) (o : Out) (s' : State)
      → any_callback (q ∷ qs) ≡ false
      → First s (q ∷ qs) s.complete_list
      → length s.complete_list < 2 ^ 32
      → openusb_wait (suc fuel) ops true true (q ∷ qs) [] s ≡ ok (returned c o s')
      → Step ops s s'
  released :
      (p : ℕ) (io : UsbiIo) (s' : State)
      → s.ios p ≡ some io
      → io.async ≡ false
      → usbi_free_io ops (some p) s ≡ ok s'
      → Step ops s s'

-- A library handle as `usbi_init_handle` makes it, for a device without requests.
unfoldable pub IsFresh : State → Type 0
IsFresh s = (s.io_head ≡ []) × (s.complete_list ≡ []) × (s.complete_count ≡ 0)

pub data Reached (ops : XferOps) : State → Type 0 where
  start : (s : State) → IsFresh s → Reached ops s
  onward : (s s' : State) → Reached ops s → Step ops s s' → Reached ops s'

-- What is not as it is behind each address of a list is not on it.
pub Each→NotIn :
    (P : Option UsbiIo → Type 0) (ios : ℕ → Option UsbiIo) (p : ℕ) (xs : List ℕ)
    → ¬ P (ios p)
    → Each P ios xs
    → NotIn p xs
unfolding NotIn Each
Each→NotIn P ios p [] n e = tt
Each→NotIn P ios p (x ∷ xs) n e =
    (λ q. n (subst (λ y. P (ios y)) (sym q) e.0), Each→NotIn P ios p xs n e.1)

pub Each-set :
    (P : Option UsbiIo → Type 0) (ios : ℕ → Option UsbiIo) (p : ℕ) (v : Option UsbiIo) (xs : List ℕ)
    → P v
    → Each P ios xs
    → Each P (at ios p v) xs
unfolding Each
Each-set P ios p v [] h e = tt
Each-set P ios p v (x ∷ xs) h e = elim (Bool-cases (x == p)) [
  | inl t ↦ (rw t h, Each-set P ios p v xs h e.1)
  | inr t ↦ (rw t e.0, Each-set P ios p v xs h e.1)
]

pub none-not-IsLive : (v : Option UsbiIo) → v ≡ none → ¬ IsLive v
unfolding IsLive
none-not-IsLive v e (io, q) = cc (e, q)

pub none-not-IsDone : (v : Option UsbiIo) → v ≡ none → ¬ IsDone v
unfolding IsDone
none-not-IsDone v e (io, q, _, _) = cc (e, q)

pub in_progress-not-IsDone :
    (v : Option UsbiIo) (io : UsbiIo) → v ≡ some io → io.status ≡ in_progress → ¬ IsDone v
unfolding IsDone
in_progress-not-IsDone v io e h (io', q, c, _) = cc (e, q, h, c)

pub sync-not-IsDone :
    (v : Option UsbiIo) (io : UsbiIo) → v ≡ some io → io.async ≡ false → ¬ IsDone v
unfolding IsDone
sync-not-IsDone v io e h (io', q, _, a) = cc (e, q, h, a)

unfoldable pub IsFresh-Good : (s : State) → IsFresh s → Good s
unfolding IsFresh Each Distinct Disjoint
IsFresh-Good s (h, c, n) = record {
  counted = rw (c, n) refl;
  once = subst Distinct (sym c) tt;
  one_list = subst (λ l. Disjoint l s.io_head) (sym c) tt;
  live = subst (Each IsLive s.ios) (sym h) tt;
  done = subst (Each IsDone s.ios) (sym c) tt;
}

pub set_async-Good :
    (p : ℕ) (io : UsbiIo) (s s' : State)
    → Good s
    → s.ios p ≡ some io
    → io.status ≡ in_progress
    → set_async p s ≡ ok s'
    → Good s'
unfolding set_async IsLive
set_async-Good p io s s' g e h r =
    let io' : UsbiIo = record io { status = in_progress; async = true } in
    let out =
      Each→NotIn IsDone s.ios p s.complete_list (in_progress-not-IsDone (s.ios p) io e h) g.done in
    let r' : ok (record s { ios = at s.ios p (some io') }) ≡ ok s' = ground (arith, e, r) in
    subst Good {x = record s { ios = at s.ios p (some io') }} {y = s'} (cc r') (record {
      counted = g.counted;
      once = g.once;
      one_list = g.one_list;
      live = Each-set IsLive s.ios p (some io') s.io_head (io', refl) g.live;
      done = Each-at IsDone s.ios p (some io') s.complete_list out g.done;
    })
