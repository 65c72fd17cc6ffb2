-- ===== src/Urbs/Splitting/Refusals.antt =====
-- A bulk or interrupt transfer of which the kernel takes the first URBs only (openusb/src/linux.c).
use libopenusb.Prelude.{
  length, ℕ, zero, suc, ◌+◌, ◌-◌, ◌^◌, ◌<◌, ◌≡◌, refl, sym, ap, subst, ◌∙◌, ◌≢◌, Bool, Option, none,
  some, List, [], ◌++◌, add-zero, arith,
}
use libopenusb.Codes.{success}
use libopenusb.Timeouts.{IoStatus, in_progress}
use libopenusb.Urbs.{
  submit_failed, Discard, cancelled, ended, failed, IoPrivate, count_discard, discard_from,
  handle_partial_submit,
}
use libopenusb.Urbs.Splitting.{
  other_type, BulkRequest, BulkUrb, urbs_needed, submit_from, fresh_priv, flags_from, clear_flags,
  after_submit, linux_submit_bulk_intr,
}
use libopenusb.Urbs.Splitting.Pieces.{count-bounds, submit_from-taken, submit-after}
use libopenusb.Transfers.{increment}

count_discard-awaited :
    (d : Discard) (io : IoPrivate)
    → d ≢ failed
    → io.urbs_to_cancel + io.urbs_to_reap < 2 ^ 31
    → ((count_discard d io).urbs_to_cancel + (count_discard d io).urbs_to_reap
        ≡ io.urbs_to_cancel + io.urbs_to_reap + 1)
      × ((count_discard d io).completions ≡ io.completions)
unfolding count_discard increment
count_discard-awaited cancelled io answered b = (omega arith, refl)
count_discard-awaited ended io answered b = (omega arith, refl)
count_discard-awaited failed io answered b = absurd (answered refl)

discard_from-awaited :
    (kernel : ℕ → Discard) (n i : ℕ) (io : IoPrivate)
    → ((j : ℕ) → kernel j ≢ failed)
    → io.urbs_to_cancel + io.urbs_to_reap + n < 2 ^ 31
    → ((discard_from kernel n i io).urbs_to_cancel + (discard_from kernel n i io).urbs_to_reap
        ≡ io.urbs_to_cancel + io.urbs_to_reap + n)
      × ((discard_from kernel n i io).completions ≡ io.completions)
unfolding discard_from
discard_from-awaited kernel zero i io answered b = (omega arith, refl)
discard_from-awaited kernel (suc n) i io answered b =
    let one = count_discard-awaited (kernel i) io (answered i) (omega arith) in
    let rest =
      discard_from-awaited kernel n (i + 1) (count_discard (kernel i) io) answered
        (omega (arith, one.0)) in
    (omega (arith, one.0, rest.0), rest.1 ∙ one.1)

submit_from-refused :
    (answer : ℕ → Option ℕ) (supports : Bool) (req : BulkRequest) (count k n i errnum : ℕ)
    → ((j : ℕ) → j < i + k → answer j ≡ none)
    → answer (i + k) ≡ some errnum
    → k < n
    → ((submit_from answer supports req count n i).1 ≡ some (i + k, errnum))
      × (length (submit_from answer supports req count n i).0 ≡ k)
unfolding submit_from
submit_from-refused answer supports req count k zero i errnum before e b = absurd (omega arith)
submit_from-refused answer supports req count zero (suc n) i errnum before e b =
    let here : answer i ≡ some errnum = subst (λ j. answer j ≡ some errnum) (add-zero i) e in
    rw (here, submit_from) (ap (λ j. some (j, errnum)) {x = i} {y = i + 0} (omega arith), refl)
submit_from-refused answer supports req count (suc k) (suc n) i errnum before e b =
    let next : i + suc k ≡ i + 1 + k = omega arith in
    let rest =
      submit_from-refused answer supports req count k n (i + 1) errnum
        (λ j c. before j (omega arith)) (subst (λ j. answer j ≡ some errnum) next e)
        (omega arith) in
    rw (submit_from-taken answer supports req count n i (before i (omega arith)))
      (rest.0 ∙ ap (λ j. some (j, errnum)) (sym next), ap (λ x. suc x) rest.1)

after_submit-refused :
    (kernel : ℕ → Discard) (supports : Bool) (req : BulkRequest) (count k errnum : ℕ)
    (taken : List BulkUrb × Option (ℕ × ℕ))
    → taken.1 ≡ some (suc k, errnum)
    → ((j : ℕ) → kernel j ≢ failed)
    → suc k < 2 ^ 31
    → let result = after_submit kernel supports req count taken in
      (result.io_status ≡ in_progress)
      × (result.code ≡ success)
      × (result.submitted ≡ taken.0)
      × (result.priv.urbs_to_cancel + result.priv.urbs_to_reap ≡ suc k)
      × (result.priv.completions ≡ [])
unfolding after_submit handle_partial_submit fresh_priv
after_submit-refused kernel supports req count k errnum (urbs, failure) e answered small =
    let flags = flags_from supports req count (suc k + 1) 0 ++ clear_flags (count - (suc k + 1)) in
    let ends =
      discard_from-awaited kernel (suc k) 0
        (record (fresh_priv flags) { reap_action = submit_failed }) answered (omega arith) in
    rw (e, after_submit) (refl, refl, refl, omega (arith, ends.0), ends.1)

-- A bulk or interrupt transfer of less than 2^32 bytes of which the kernel takes the first `k + 1` URBs and refuses the next is
-- answered with success and stays in progress, without a completion, when the kernel answers each
-- discarding of a URB with a cancellation or with the URB's end: the URBs that are to come back are
-- `k + 1`, as many as were taken.
pub linux_submit_bulk_intr-refused :
    (answer : ℕ → Option ℕ) (kernel : ℕ → Discard) (supports : Bool) (req : BulkRequest)
    (status : IoStatus) (k errnum : ℕ)
    → req.request_type ≢ other_type
    → ((j : ℕ) → j < suc k → answer j ≡ none)
    → answer (suc k) ≡ some errnum
    → suc k < urbs_needed req.payload_length
    → req.payload_length < 2 ^ 32
    → ((j : ℕ) → kernel j ≢ failed)
    → let result = linux_submit_bulk_intr answer kernel supports req status in
      (result.io_status ≡ in_progress)
      × (result.code ≡ success)
      × (length result.submitted ≡ suc k)
      × (result.priv.urbs_to_cancel + result.priv.urbs_to_reap ≡ suc k)
      × (result.priv.completions ≡ [])
linux_submit_bulk_intr-refused answer kernel supports req status k errnum known before e b small
      answered =
    let n = urbs_needed req.payload_length in
    let bounds = count-bounds req.payload_length in
    let taken = submit_from answer supports req n n 0 in
    let from_0 : 0 + suc k ≡ suc k = omega arith in
    let refused =
      submit_from-refused answer supports req n (suc k) n 0 errnum (λ j c. before j (omega arith))
        (subst (λ j. answer j ≡ some errnum) (sym from_0) e) b in
    let refused_next = refused.0 ∙ ap (λ j. some (j, errnum)) from_0 in
    let ends =
      after_submit-refused kernel supports req n k errnum taken refused_next answered
        (omega (arith, bounds)) in
    rw (submit-after answer kernel supports req status known)
      (ends.0, ends.1, ap length ends.2 ∙ refused.1, ends.3, ends.4)
