-- ===== src/Transfers/Retrieval.antt =====
-- What `openusb_wait` and `openusb_poll` of openusb/src/api.c do in the states of the invariant.
use libopenusb.Prelude.{
  Bool-cases, ℕ, ◌≡◌, refl, ap, subst, ◌⊎◌, inl, inr, true, false, Option, none, some, List, [],
  ◌∷◌, ◌++◌, arith, ◌∙◌,
}
use libopenusb.Run.{ok}
use libopenusb.Timeouts.{completed}
use libopenusb.LinkedList.Chains.{NotIn, Distinct, Disjoint}
use libopenusb.Transfers.{
  Request, UsbiIo, State, XferOps, at, remove, decrement, unlinked, usbi_free_io,
}
use libopenusb.Transfers.Queues.{
  remove-absent, remove-split, NotIn-removed, Distinct-remove, Disjoint-remove, Each, Each-append,
  Each-at,
}
use libopenusb.Transfers.Completion.{IsLive, IsDone, Good, decrement-length}
use libopenusb.Codes.{success}
use libopenusb.LinkedList.Removing.{Disjoint-append}
use libopenusb.Transfers.Waiting.{request, among, first_done, take_done, openusb_poll, null_handle}

-- The I/O of a request that is, or is not, among those waited for
unfoldable pub IsFor : List Request → Option UsbiIo → Type 0
IsFor handles v = (io : UsbiIo) × (v ≡ some io) × (among io.req.id handles ≡ true)

unfoldable pub IsOther : List Request → Option UsbiIo → Type 0
IsOther handles v = (io : UsbiIo) × (v ≡ some io) × (among io.req.id handles ≡ false)

-- The first I/O waited for, with what stands around it.
pub record First (s : State) (handles : List Request) (xs : List ℕ) : Type 0 where
  pub address : ℕ
  pub before : List ℕ
  pub after : List ℕ
  pub split : xs ≡ before ++ address ∷ after
  pub others : Each (IsOther handles) s.ios before
  pub wanted : IsFor handles (s.ios address)

module _ (s : State) (handles : List Request) where
  pub first_done-none :
      (xs : List ℕ) → Each (IsOther handles) s.ios xs → first_done s handles xs ≡ ok none
  unfolding first_done Each IsOther
  first_done-none [] e = refl
  first_done-none (x ∷ xs) e = let (io, q, o) = e.0 in ground (arith, q, o, first_done-none xs e.1)

  pub first_done-some :
      (xs : List ℕ) (p : ℕ) (ys : List ℕ)
      → Each (IsOther handles) s.ios xs
      → IsFor handles (s.ios p)
      → first_done s handles (xs ++ p ∷ ys) ≡ ok (some p)
  unfolding first_done Each IsOther IsFor
  first_done-some [] p ys e w = let (io, q, o) = w in ground (arith, q, o)
  first_done-some (x ∷ xs) p ys e w =
      let (io, q, o) = e.0 in ground (arith, q, o, first_done-some xs p ys e.1 w)

  pub First_cases :
      (xs : List ℕ) → Each IsDone s.ios xs → First s handles xs ⊎ Each (IsOther handles) s.ios xs
  unfolding Each IsDone IsOther IsFor
  First_cases [] d = inr tt
  First_cases (x ∷ xs) d =
      let (io, q, _, _) = d.0 in
      elim (Bool-cases (among io.req.id handles)) [
        | inl t ↦ inl (record {
          address = x;
          before = [];
          after = xs;
          split = refl;
          others = tt;
          wanted = (io, q, t);
        })
        | inr t ↦ elim (First_cases xs d.1) [
          | inl f ↦ inl (record {
            address = f.address;
            before = x ∷ f.before;
            after = f.after;
            split = ap (λ l. x ∷ l) f.split;
            others = ((io, q, t), f.others);
            wanted = f.wanted;
          })
          | inr o ↦ inr ((io, q, t), o)
        ]
      ]

-- The state after a completed I/O has been taken.
abbrev pub taken : ℕ → State → State
taken p s =
    let s1 = record (unlinked p s) { complete_count = decrement s.complete_count } in
    record (unlinked p s1) { ios = at s.ios p none }

pub take_done-taken :
    (ops : XferOps) (p : ℕ) (s : State) (io : UsbiIo)
    → s.ios p ≡ some io
    → io.status ≡ completed
    → take_done ops p s ≡ ok (request io.req.id, taken p s)
unfolding take_done usbi_free_io
take_done-taken ops p s io e c = ground (arith, e, c)

pub taken-Good :
    (p : ℕ) (s : State) (xs ys : List ℕ)
    → Good s
    → s.complete_list ≡ xs ++ p ∷ ys
    → Good (taken p s) × ((taken p s).complete_list ≡ xs ++ ys)
unfolding unlinked Each Disjoint
taken-Good p s xs ys g e =
    let once = subst Distinct e g.once in
    let r1 : remove p s.complete_list ≡ xs ++ ys = rw e (remove-split p xs ys once) in
    let out : NotIn p (xs ++ ys) = subst (NotIn p) r1 (NotIn-removed p s.complete_list) in
    let r2 = remove-absent p (xs ++ ys) out in
    let d = (Each-append IsDone s.ios xs (p ∷ ys)).0 (subst (Each IsDone s.ios) e g.done) in
    let dd = (Each-append IsDone s.ios xs ys).1 (d.0, d.1.1) in
    let apart = Disjoint-remove p s.complete_list s.io_head g.one_list in
    let p_out : NotIn p s.io_head =
      (Disjoint-append xs (p ∷ ys) s.io_head
        (subst (λ l. Disjoint l s.io_head) e g.one_list)).1.0 in
    let h = remove-absent p s.io_head p_out in
    (
      rw (h, h, r1, r2)
          (record {
            counted = decrement-length xs ys p s.complete_count (rw (← e) g.counted);
            once = subst Distinct r1 (Distinct-remove p s.complete_list g.once);
            one_list = subst (λ l. Disjoint l s.io_head) r1 apart;
            live = Each-at IsLive s.ios p none s.io_head p_out g.live;
            done = Each-at IsDone s.ios p none (xs ++ ys) out dd;
          }),
      rw (r1, r2) refl,
    )

-- In a state of the invariant, `openusb_poll` finds the first completed request of those asked for,
-- takes it off the list and frees its I/O; if none is completed it stores NULL and changes nothing.
pub poll-first :
    (ops : XferOps) (q : Request) (qs : List Request) (s : State)
    → Good s
    → ((f : First s (q ∷ qs) s.complete_list) × (io : UsbiIo) × (s.ios f.address ≡ some io)
        × (openusb_poll ops true true (q ∷ qs) s
            ≡ ok (success, request io.req.id, taken f.address s))
        × Good (taken f.address s)
        × ((taken f.address s).complete_list ≡ f.before ++ f.after))
      ⊎ (Each (IsOther (q ∷ qs)) s.ios s.complete_list
          × (openusb_poll ops true true (q ∷ qs) s ≡ ok (success, null_handle, s)))
unfolding openusb_poll Each IsDone
poll-first ops q qs s g = elim (First_cases s (q ∷ qs) s.complete_list g.done) [
  | inr o ↦ inr (o, rw (first_done-none s (q ∷ qs) s.complete_list o) refl)
  | inl f ↦
      let d =
        ((Each-append IsDone s.ios f.before (f.address ∷ f.after)).0
          (subst (Each IsDone s.ios) f.split g.done)).1.0 in
      let (io, e, c, _) = d in
      let found =
        ap (first_done s (q ∷ qs)) f.split
        ∙ first_done-some s (q ∷ qs) f.before f.address f.after f.others f.wanted in
      let k = taken-Good f.address s f.before f.after g f.split in
      inl (f, io, e, rw (found, take_done-taken ops f.address s io e c) refl, k.0, k.1)
]
