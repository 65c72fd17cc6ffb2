-- ===== src/Transfers/Completion.antt =====
-- The invariant of the lists of I/Os: what is counted is what is on the list of completed requests,
-- and each I/O on a list is there once, on one list, and not freed.
use libopenusb.Prelude.{
  ◌==◌, Bool-cases, length, length-append, ℤ, ℕ, ◌%◌, ◌^◌, ◌≡◌, refl, inl, inr, true, false, ◌&&◌,
  Option, some, List, [], ◌∷◌, ◌++◌, arith,
}
use libopenusb.Run.{ok}
use libopenusb.Timeouts.{in_progress, completed}
use libopenusb.LinkedList.Chains.{NotIn, Distinct, Disjoint, Disjoint-sym}
use libopenusb.Transfers.{
  Request, UsbiIo, State, at, remove, increment, decrement, io_at, unlinked, usbi_alloc_io,
  has_result, add_completion, run_callbacks, usbi_io_complete,
}
use libopenusb.Transfers.Queues.{
  remove-absent, NotIn-remove, NotIn-removed, Distinct-snoc, Disjoint-remove, Disjoint-snoc, Each,
  Each-append, Each-remove, Each-at,
}

unfoldable pub IsLive : Option UsbiIo → Type 0
IsLive v = (io : UsbiIo) × (v ≡ some io)

unfoldable pub IsDone : Option UsbiIo → Type 0
IsDone v = (io : UsbiIo) × (v ≡ some io) × (io.status ≡ completed) × (io.async ≡ true)

pub record Good (s : State) : Type 0 where
  pub counted : s.complete_count ≡ length s.complete_list % 2 ^ 32
  pub once : Distinct s.complete_list
  pub one_list : Disjoint s.complete_list s.io_head
  pub live : Each IsLive s.ios s.io_head
  pub done : Each IsDone s.ios s.complete_list

pub increment-length :
    (xs : List ℕ) (p n : ℕ) → n ≡ length xs % 2 ^ 32 → increment n ≡ length (xs ++ p ∷ []) % 2 ^ 32
unfolding increment
increment-length xs p n e = omega (arith, length-append xs (p ∷ []), e)

pub decrement-length :
    (xs ys : List ℕ) (p n : ℕ)
    → n ≡ length (xs ++ p ∷ ys) % 2 ^ 32
    → decrement n ≡ length (xs ++ ys) % 2 ^ 32
unfolding decrement
decrement-length xs ys p n e = omega (arith, length-append xs (p ∷ ys), length-append xs ys, e)

pub alloc_io-Good :
    (s : State) (p : ℕ) (req : Request)
    → Good s
    → NotIn p s.io_head
    → NotIn p s.complete_list
    → Good (usbi_alloc_io (some p) req s).1
unfolding usbi_alloc_io IsLive Each
alloc_io-Good s p req g n m =
    let io : UsbiIo = record { req = req; status = in_progress; async = false; callback = false } in
    let v = some io in
    let t : (p == p) ≡ true = ground arith in
    record {
      counted = g.counted;
      once = g.once;
      one_list = Disjoint-snoc p s.complete_list s.io_head g.one_list m;
      live =
          (Each-append IsLive (at s.ios p v) s.io_head (p ∷ [])).1
            (Each-at IsLive s.ios p v s.io_head n g.live, ((io, rw t refl), tt));
      done = Each-at IsDone s.ios p v s.complete_list m g.done;
    }

-- The state behind the completion of an asynchronous I/O.
abbrev pub completing : ℕ → UsbiIo → ℤ → ℕ → State → State
completing p io status n s =
    let done = record io { status = completed } in
    let s2 = add_completion p done (unlinked p (record s { ios = at s.ios p (some done) })) in
    run_callbacks p done status (record s2 {
      results = at s2.results done.req.id (record { status = status; transferred_bytes = n });
    })

pub io_complete-completing :
    (p : ℕ) (status : ℤ) (n : ℕ) (s : State) (io : UsbiIo)
    → s.ios p ≡ some io
    → has_result io.req.kind ≡ true
    → usbi_io_complete p status n s ≡ ok (completing p io status n s)
unfolding usbi_io_complete io_at
io_complete-completing p status n s io e k = ground (arith, e, k)

run_callbacks-keeps :
    (p : ℕ) (io : UsbiIo) (status : ℤ) (s : State) → Good s → Good (run_callbacks p io status s)
unfolding run_callbacks
run_callbacks-keeps p io status s g = elim (Bool-cases (io.async && io.req.cb)) [
  | inl a ↦ elim (Bool-cases io.callback) [
    | inl c ↦
        rw (a, c)
          (record {
            counted = g.counted;
            once = g.once;
            one_list = g.one_list;
            live = g.live;
            done = g.done;
          })
    | inr c ↦
        rw (a, c)
          (record {
            counted = g.counted;
            once = g.once;
            one_list = g.one_list;
            live = g.live;
            done = g.done;
          })
  ]
  | inr a ↦ elim (Bool-cases io.callback) [
    | inl c ↦
        rw (a, c)
          (record {
            counted = g.counted;
            once = g.once;
            one_list = g.one_list;
            live = g.live;
            done = g.done;
          })
    | inr c ↦ rw (a, c) g
  ]
]

-- An I/O that is done and on no list is added to the completed ones.
pub add_completion-Good :
    (p : ℕ) (io : UsbiIo) (s : State)
    → Good s
    → NotIn p s.complete_list
    → NotIn p s.io_head
    → (io.async ≡ true → IsDone (s.ios p))
    → Good (add_completion p io s)
unfolding add_completion Each
add_completion-Good p io s g m n d = elim (Bool-cases io.async) [
  | inr a ↦ rw a g
  | inl a ↦ rw a (record {
    counted = increment-length s.complete_list p s.complete_count g.counted;
    once = Distinct-snoc p s.complete_list g.once m;
    one_list = Disjoint-sym s.io_head (s.complete_list ++ p ∷ []) (
        Disjoint-snoc p s.io_head s.complete_list
          (Disjoint-sym s.complete_list s.io_head g.one_list) n);
    live = g.live;
    done = (Each-append IsDone s.ios s.complete_list (p ∷ [])).1 (g.done, (d a, tt));
  })
]

-- An I/O that is taken off the list of those on their way, and then changed.
pub taken_off-Good :
    (p : ℕ) (v : Option UsbiIo) (s : State)
    → Good s
    → NotIn p s.complete_list
    → Good (unlinked p (record s { ios = at s.ios p v }))
unfolding unlinked
taken_off-Good p v s g m = rw (remove-absent p s.complete_list m) (record {
  counted = g.counted;
  once = g.once;
  one_list = Disjoint-sym (remove p s.io_head) s.complete_list (
      Disjoint-remove p s.io_head s.complete_list
        (Disjoint-sym s.complete_list s.io_head g.one_list));
  live =
      Each-at IsLive s.ios p v (remove p s.io_head) (NotIn-removed p s.io_head)
        (Each-remove IsLive s.ios p s.io_head g.live);
  done = Each-at IsDone s.ios p v s.complete_list m g.done;
})

pub completing-Good :
    (p : ℕ) (status : ℤ) (n : ℕ) (s : State) (io : UsbiIo)
    → Good s
    → NotIn p s.complete_list
    → Good (completing p io status n s)
unfolding IsDone unlinked
completing-Good p status n s io g m =
    let done = record io { status = completed } in
    let s1 = unlinked p (record s { ios = at s.ios p (some done) }) in
    let t : (p == p) ≡ true = ground arith in
    let g2 =
      add_completion-Good p done s1 (taken_off-Good p (some done) s g m)
        (NotIn-remove p p s.complete_list m) (NotIn-removed p s.io_head)
        (λ a. (done, rw t refl, refl, a)) in
    run_callbacks-keeps p done status _ (record {
      counted = g2.counted;
      once = g2.once;
      one_list = g2.one_list;
      live = g2.live;
      done = g2.done;
    })
