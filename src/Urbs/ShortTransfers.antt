-- ===== src/Urbs/ShortTransfers.antt =====
-- A bulk or interrupt transfer that ends early (openusb/src/linux.c), on a kernel without bulk
-- continuation, where the URBs behind are discarded, and on one with it, which cancels them itself.
use libopenusb.Prelude.{
  ltb, ◌==◌, if◌then◌else◌, Bool-cases, length, drop, ℕ, suc, ◌+◌, ◌-◌, ◌%◌, ◌^◌, ◌<◌, ◌≡◌, refl,
  ap, ◌∙◌, ◌⊎◌, inl, inr, Bool, true, false, ◌&&◌, List, [], ◌∷◌, arith,
}
use libopenusb.Codes.{success}
use libopenusb.Transfers.{increment, decrement}
use libopenusb.Urbs.{
  done, remote_io, no_entry, conn_reset, Urb, normal, completed_early, Discard, cancelled,
  IoPrivate, num_urbs, count_discard, partial_from, reap_success, handle_bulk_intr_complete,
}
use libopenusb.Urbs.Courses.{reap_urbs}

-- What has become of a URB behind the short one: it was discarded, or the kernel reset a continuation.
unfoldable pub GivenBack : Urb → Type 0
GivenBack u = (u.status ≡ no_entry) ⊎ ((u.status ≡ conn_reset) × (u.continuation ≡ true))

unfoldable pub AllGivenBack : List Urb → Type 0
unfolding GivenBack
AllGivenBack [] = Unit {0}
AllGivenBack (u ∷ us) = GivenBack u × AllGivenBack us

-- Without bulk continuation: no URB has a flag, the short one is done, those behind are discarded.
unfoldable pub AllDiscarded : List Urb → Type 0
AllDiscarded [] = Unit {0}
AllDiscarded (u ∷ us) = (u.status ≡ no_entry) × (u.continuation ≡ false) × AllDiscarded us

unfoldable pub AllCleared : List Bool → Type 0
AllCleared [] = Unit {0}
AllCleared (c ∷ cs) = (c ≡ false) × AllCleared cs

unfoldable pub Plain : (ℕ → Discard) → Urb → List Urb → List Bool → Type 0
unfolding AllDiscarded AllCleared
Plain kernel u us flags =
    (u.status ≡ done) × ((j : ℕ) → kernel j ≡ cancelled) × AllDiscarded us × AllCleared flags

-- With it: the short URB is in error, and the kernel resets those behind, which are continuations.
unfoldable pub AllReset : List Urb → Type 0
AllReset [] = Unit {0}
AllReset (u ∷ us) = (u.status ≡ conn_reset) × (u.continuation ≡ true) × AllReset us

unfoldable pub AllSet : List Bool → Type 0
AllSet [] = Unit {0}
AllSet (c ∷ cs) = (c ≡ true) × AllSet cs

unfoldable pub Enhanced : Urb → List Urb → List Bool → Type 0
unfolding AllReset AllSet
Enhanced u us flags = (u.status ≡ remote_io) × AllReset us × AllSet flags

AllDiscarded-AllGivenBack : (us : List Urb) → AllDiscarded us → AllGivenBack us
unfolding AllDiscarded AllGivenBack
AllDiscarded-AllGivenBack [] h = tt
AllDiscarded-AllGivenBack (u ∷ us) h = (inl h.0, AllDiscarded-AllGivenBack us h.2)

AllReset-AllGivenBack : (us : List Urb) → AllReset us → AllGivenBack us
unfolding AllReset AllGivenBack
AllReset-AllGivenBack [] h = tt
AllReset-AllGivenBack (u ∷ us) h = (inr (h.0, h.1), AllReset-AllGivenBack us h.2)

-- Each URB behind is counted as cancelled.
unfoldable AllCounted : (ℕ → Discard) → List Bool → ℕ → Type 0
AllCounted kernel [] i = Unit {0}
AllCounted kernel (c ∷ cs) i =
    ((if c then cancelled else kernel i) ≡ cancelled) × AllCounted kernel cs (i + 1)

cancels-AllCounted :
    (kernel : ℕ → Discard) (cs : List Bool) (i : ℕ)
    → ((j : ℕ) → kernel j ≡ cancelled)
    → AllCounted kernel cs i
unfolding AllCounted
cancels-AllCounted kernel [] i all = tt
cancels-AllCounted kernel (c ∷ cs) i all = (
  elim (Bool-cases c) [ inl t ↦ rw t refl | inr f ↦ rw f (all i) ],
  cancels-AllCounted kernel cs (i + 1) all,
)

AllSet-AllCounted :
    (kernel : ℕ → Discard) (cs : List Bool) (i : ℕ) → AllSet cs → AllCounted kernel cs i
unfolding AllCounted AllSet
AllSet-AllCounted kernel [] i h = tt
AllSet-AllCounted kernel (c ∷ cs) i h = (rw h.0 refl, AllSet-AllCounted kernel cs (i + 1) h.1)

partial_from-cancelled :
    (kernel : ℕ → Discard) (cs : List Bool) (i : ℕ) (io : IoPrivate)
    → AllCounted kernel cs i
    → io.urbs_to_cancel + length cs < 2 ^ 32
    → partial_from kernel cs i io ≡ record io { urbs_to_cancel = io.urbs_to_cancel + length cs }
unfolding partial_from increment AllCounted count_discard
partial_from-cancelled kernel [] i io all b =
    ap (λ n. record io { urbs_to_cancel = n }) {x = io.urbs_to_cancel} {y = io.urbs_to_cancel + 0}
      (omega arith)
partial_from-cancelled kernel (c ∷ cs) i io all b =
    let w : (io.urbs_to_cancel + 1) % 2 ^ 32 ≡ io.urbs_to_cancel + 1 = omega arith in
    let counted : count_discard (if c then cancelled else kernel i) io
        ≡ record io { urbs_to_cancel = io.urbs_to_cancel + 1 } =
      rw (all.0, w) refl in
    let io' : IoPrivate = record io { urbs_to_cancel = io.urbs_to_cancel + 1 } in
    ap (λ x. partial_from kernel cs (i + 1) x) counted
    ∙ partial_from-cancelled kernel cs (i + 1) io' all.1 (omega arith)
    ∙ ap (λ n. record io { urbs_to_cancel = n }) {x = io.urbs_to_cancel + 1 + length cs}
        {y = io.urbs_to_cancel + suc (length cs)} (omega arith)

cancelled-last :
    (kernel : ℕ → Discard) (i : ℕ) (u : Urb) (io : IoPrivate)
    → GivenBack u
    → io.reap_action ≡ completed_early
    → io.urbs_to_cancel ≡ 1
    → io.urbs_to_reap ≡ 0
    → (handle_bulk_intr_complete kernel i u io).completions
      ≡ (success, io.bytes_transferred) ∷ io.completions
unfolding handle_bulk_intr_complete decrement GivenBack
cancelled-last kernel i u io (inl d) a c r = rw (d, a, c, r) refl
cancelled-last kernel i u io (inr d) a c r = rw (d.0, d.1, a, c, r) refl

cancelled-onward :
    (kernel : ℕ → Discard) (i n : ℕ) (u : Urb) (io : IoPrivate)
    → GivenBack u
    → io.reap_action ≡ completed_early
    → io.urbs_to_cancel ≡ suc (suc n)
    → suc (suc n) < 2 ^ 32
    → handle_bulk_intr_complete kernel i u io ≡ record io { urbs_to_cancel = suc n }
unfolding handle_bulk_intr_complete decrement GivenBack
cancelled-onward kernel i n u io (inl d) a c b =
    let z : (suc (suc n) == 0) ≡ false = ground arith in
    let w : (suc (suc n) + (2 ^ 32 - 1)) % 2 ^ 32 ≡ suc n = omega arith in
    let y : (suc n == 0) ≡ false = ground arith in
    let x : (io.urbs_to_reap == 0 && false) ≡ false = ground arith in rw (d, a, c, z, w, y, x) refl
cancelled-onward kernel i n u io (inr d) a c b =
    let w : (suc (suc n) + (2 ^ 32 - 1)) % 2 ^ 32 ≡ suc n = omega arith in
    let y : (suc n == 0) ≡ false = ground arith in
    let x : (io.urbs_to_reap == 0 && false) ≡ false = ground arith in
    rw (d.0, d.1, a, c, w, y, x) refl

cancelled-all :
    (kernel : ℕ → Discard) (i : ℕ) (u : Urb) (us : List Urb) (io : IoPrivate)
    → AllGivenBack (u ∷ us)
    → io.reap_action ≡ completed_early
    → io.urbs_to_cancel ≡ length (u ∷ us)
    → io.urbs_to_reap ≡ 0
    → length (u ∷ us) < 2 ^ 32
    → (reap_urbs kernel i (u ∷ us) io).completions
      ≡ (success, io.bytes_transferred) ∷ io.completions
unfolding reap_urbs AllGivenBack
cancelled-all kernel i u [] io d a c r b = cancelled-last kernel i u io d.0 a c r
cancelled-all kernel i u (v ∷ vs) io d a c r b =
    let e = cancelled-onward kernel i (length vs) u io d.0 a c b in
    let io' : IoPrivate = record io { urbs_to_cancel = suc (length vs) } in
    ap (λ x. (reap_urbs kernel (i + 1) (v ∷ vs) x).completions) e
    ∙ cancelled-all kernel (i + 1) v vs io' d.1 a refl r (omega arith)

module _ (kernel : ℕ → Discard) (i : ℕ) (u v : Urb) (vs : List Urb) (io : IoPrivate) where
  -- The completion of the short URB, whether it is done or in error
  short-cancels :
      (u.status ≡ done) ⊎ (u.status ≡ remote_io)
      → u.actual_length < u.buffer_length
      → io.reap_action ≡ normal
      → (i + 1 == num_urbs io) ≡ false
      → io.bytes_transferred + u.actual_length < 2 ^ 32
      → handle_bulk_intr_complete kernel i u io
        ≡ partial_from kernel (drop (i + 1) io.continuations) (i + 1) (record io {
          bytes_transferred = io.bytes_transferred + u.actual_length;
          reap_action = completed_early;
        })
  unfolding handle_bulk_intr_complete reap_success
  short-cancels d s n t b =
      let w : (io.bytes_transferred + u.actual_length) % 2 ^ 32
          ≡ io.bytes_transferred + u.actual_length =
        omega arith in
      let short : ltb u.actual_length u.buffer_length ≡ true = ground arith in
      elim d [ inl e ↦ rw (e, n, t, short, w) refl | inr e ↦ rw (e, n, t, short, w) refl ]

  short-ends :
      (u.status ≡ done) ⊎ (u.status ≡ remote_io)
      → AllCounted kernel (drop (i + 1) io.continuations) (i + 1)
      → AllGivenBack (v ∷ vs)
      → u.actual_length < u.buffer_length
      → io.reap_action ≡ normal
      → io.urbs_to_cancel ≡ 0
      → io.urbs_to_reap ≡ 0
      → length (drop (i + 1) io.continuations) ≡ length (v ∷ vs)
      → (i + 1 == num_urbs io) ≡ false
      → length (v ∷ vs) < 2 ^ 32
      → io.bytes_transferred + u.actual_length < 2 ^ 32
      → (reap_urbs kernel i (u ∷ v ∷ vs) io).completions
        ≡ (success, io.bytes_transferred + u.actual_length) ∷ io.completions
  unfolding reap_urbs
  short-ends d all out s n c r l t k b =
      let io1 : IoPrivate = record io {
        bytes_transferred = io.bytes_transferred + u.actual_length;
        reap_action = completed_early;
      } in
      let rest = drop (i + 1) io.continuations in
      let marked = partial_from-cancelled kernel rest (i + 1) io1 all (omega arith) in
      let io2 : IoPrivate = record io1 { urbs_to_cancel = io.urbs_to_cancel + length rest } in
      ap (λ x. (reap_urbs kernel (i + 1) (v ∷ vs) x).completions) (short-cancels d s n t b ∙ marked)
      ∙ cancelled-all kernel (i + 1) v vs io2 out refl (omega arith) r k

  -- A URB that comes back short, with others behind it, completes the transfer once, with success and
  -- the bytes so far, after the last of the others has come back: without bulk continuation, when the
  -- URB is done and the others are discarded in time, and with it, when the URB is in error and the
  -- kernel resets the others.
  pub short-completes :
      Plain kernel u (v ∷ vs) (drop (i + 1) io.continuations)
        ⊎ Enhanced u (v ∷ vs) (drop (i + 1) io.continuations)
      → u.actual_length < u.buffer_length
      → io.reap_action ≡ normal
      → io.urbs_to_cancel ≡ 0
      → io.urbs_to_reap ≡ 0
      → length (drop (i + 1) io.continuations) ≡ length (v ∷ vs)
      → (i + 1 == num_urbs io) ≡ false
      → length (v ∷ vs) < 2 ^ 32
      → io.bytes_transferred + u.actual_length < 2 ^ 32
      → (reap_urbs kernel i (u ∷ v ∷ vs) io).completions
        ≡ (success, io.bytes_transferred + u.actual_length) ∷ io.completions
  unfolding Plain Enhanced
  short-completes (inl m) =
      short-ends (inl m.0) (cancels-AllCounted kernel (drop (i + 1) io.continuations) (i + 1) m.1)
        (AllDiscarded-AllGivenBack (v ∷ vs) m.2)
  short-completes (inr m) =
      short-ends (inr m.0) (AllSet-AllCounted kernel (drop (i + 1) io.continuations) (i + 1) m.2)
        (AllReset-AllGivenBack (v ∷ vs) m.1)
