-- ===== src/Urbs/Courses.antt =====
-- Whole courses of a bulk or interrupt transfer over its URBs (openusb/src/linux.c).
use libopenusb.Prelude.{
  ltb, ◌==◌, length, drop, ℕ, zero, suc, ◌+◌, ◌%◌, ◌^◌, ◌<◌, ◌≡◌, refl, ap, ◌∙◌, true, false, List,
  [], ◌∷◌, arith,
}
use libopenusb.Codes.{success}
use libopenusb.Urbs.{
  done, other, Urb, normal, unknown_failure, Discard, IoPrivate, num_urbs, handle_partial_xfer,
  reap_success, handle_bulk_intr_complete,
}

-- The URBs that the kernel gives back, one after the other from `i` on
unfoldable pub reap_urbs : (ℕ → Discard) → ℕ → List Urb → IoPrivate → IoPrivate
reap_urbs kernel i [] io = io
reap_urbs kernel i (u ∷ us) io =
    reap_urbs kernel (i + 1) us (handle_bulk_intr_complete kernel i u io)

unfoldable pub AllDone : List Urb → Type 0
AllDone [] = Unit {0}
AllDone (u ∷ us) = (u.status ≡ done) × (u.actual_length ≡ u.buffer_length) × AllDone us

unfoldable pub total : List Urb → ℕ
total [] = 0
total (u ∷ us) = u.actual_length + total us

done-last :
    (kernel : ℕ → Discard) (i : ℕ) (u : Urb) (io : IoPrivate)
    → u.status ≡ done
    → io.reap_action ≡ normal
    → i + 1 ≡ num_urbs io
    → io.bytes_transferred + u.actual_length < 2 ^ 32
    → handle_bulk_intr_complete kernel i u io ≡ record io {
      bytes_transferred = io.bytes_transferred + u.actual_length;
      completions = (success, io.bytes_transferred + u.actual_length) ∷ io.completions;
      urbs_freed = true;
    }
unfolding handle_bulk_intr_complete reap_success
done-last kernel i u io d n l b =
    let t : (i + 1 == num_urbs io) ≡ true = ground arith in
    let w : (io.bytes_transferred + u.actual_length) % 2 ^ 32
        ≡ io.bytes_transferred + u.actual_length =
      omega arith in
    rw (d, n, t, w) refl

done-onward :
    (kernel : ℕ → Discard) (i : ℕ) (u : Urb) (io : IoPrivate)
    → u.status ≡ done
    → u.actual_length ≡ u.buffer_length
    → io.reap_action ≡ normal
    → i + 1 < num_urbs io
    → io.bytes_transferred + u.actual_length < 2 ^ 32
    → handle_bulk_intr_complete kernel i u io
      ≡ record io { bytes_transferred = io.bytes_transferred + u.actual_length }
unfolding handle_bulk_intr_complete reap_success
done-onward kernel i u io d f n l b =
    let t : (i + 1 == num_urbs io) ≡ false = ground arith in
    let s : ltb u.actual_length u.buffer_length ≡ false = ground arith in
    let w : (io.bytes_transferred + u.actual_length) % 2 ^ 32
        ≡ io.bytes_transferred + u.actual_length =
      omega arith in
    rw (d, n, t, s, w) refl

-- When every URB of a transfer comes back whole and without an error, the transfer is completed once,
-- with success and all its bytes, after the last.
pub reap_urbs-done :
    (kernel : ℕ → Discard) (i : ℕ) (u : Urb) (us : List Urb) (io : IoPrivate)
    → AllDone (u ∷ us)
    → io.reap_action ≡ normal
    → num_urbs io ≡ i + length (u ∷ us)
    → io.bytes_transferred + total (u ∷ us) < 2 ^ 32
    → ((reap_urbs kernel i (u ∷ us) io).completions
        ≡ (success, io.bytes_transferred + total (u ∷ us)) ∷ io.completions)
      × ((reap_urbs kernel i (u ∷ us) io).urbs_freed ≡ true)
unfolding reap_urbs AllDone total
reap_urbs-done kernel i u [] io d n l b =
    let e = done-last kernel i u io d.0 n (omega arith) (omega arith) in
    let z : io.bytes_transferred + u.actual_length ≡ io.bytes_transferred + (u.actual_length + 0) =
      omega arith in
    (
      ap (λ (x : IoPrivate). x.completions) e ∙ ap (λ k. (success, k) ∷ io.completions) z,
      ap (λ (x : IoPrivate). x.urbs_freed) e,
    )
reap_urbs-done kernel i u (v ∷ vs) io d n l b =
    let e = done-onward kernel i u io d.0 d.1 n (omega arith) (omega arith) in
    let io' : IoPrivate = record io {
      bytes_transferred = io.bytes_transferred + u.actual_length;
    } in
    let ih = reap_urbs-done kernel (i + 1) v vs io' d.2 n (omega arith) (omega arith) in
    let z : io.bytes_transferred + u.actual_length + (v.actual_length + total vs)
        ≡ io.bytes_transferred + (u.actual_length + (v.actual_length + total vs)) =
      omega arith in
    (
      ap (λ x. (reap_urbs kernel (i + 1) (v ∷ vs) x).completions) e
          ∙ ih.0
          ∙ ap (λ k. (success, k) ∷ io.completions) z,
      ap (λ x. (reap_urbs kernel (i + 1) (v ∷ vs) x).urbs_freed) e ∙ ih.1,
    )

drop-length {ℓ} : {A : Type ℓ} (n : ℕ) (xs : List A) → n ≡ length xs → drop n xs ≡ []
drop-length zero [] e = refl
drop-length zero (x ∷ xs) e = absurd (omega arith)
drop-length (suc n) [] e = refl
drop-length (suc n) (x ∷ xs) e = drop-length n xs (omega arith)

-- When the last URB comes back with an error that is not handled, nothing is awaited any more and the
-- transfer is not completed.
pub other_status-stuck :
    (kernel : ℕ → Discard) (i : ℕ) (u : Urb) (io : IoPrivate)
    → u.status ≡ other
    → io.reap_action ≡ normal
    → i + 1 ≡ num_urbs io
    → io.urbs_to_cancel ≡ 0
    → io.urbs_to_reap ≡ 0
    → (io' : IoPrivate) × (handle_bulk_intr_complete kernel i u io ≡ io')
      × (io'.completions ≡ io.completions)
      × (io'.urbs_to_cancel ≡ 0)
      × (io'.urbs_to_reap ≡ 0)
unfolding handle_bulk_intr_complete handle_partial_xfer
other_status-stuck kernel i u io o n l c r =
    let nil : drop (i + 1) io.continuations ≡ [] = drop-length (i + 1) io.continuations l in
    (record io { reap_action = unknown_failure }, rw (o, n, nil) refl, refl, c, r)
