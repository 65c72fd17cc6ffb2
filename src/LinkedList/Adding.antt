-- ===== src/LinkedList/Adding.antt =====
-- `list_init` and `list_add` of openusb/src/list.c.
use libopenusb.Prelude.{ℕ, ◌≡◌, sym, ap, ◌∙◌, ◌≢◌, List, [], ◌∷◌, ◌++◌, arith}
use libopenusb.Run.{ok}
use libopenusb.LinkedList.{Heap, set_prev, set_next, list_init, list_add}
use libopenusb.LinkedList.Chains.{
  NotIn, Distinct, Chain, final, update_same, update_other, NotIn-final, NotIn-append, final-append,
  Chain-append, Chain-set_prev, Chain-set_next, Chain-set_next-final, Disjoint, Distinct-append,
  Disjoint-final, NotIn→Disjoint,
}
use libopenusb.LinkedList.Rings.{Ring, added, list_add-added, Ring-set_prev, Ring-set_next}

-- The pointer back from the head is the last entry, and not NULL.
pub Ring-prev_ne : {h : Heap} {head : ℕ} {xs : List ℕ} → Ring h head xs → h.prev head ≢ 0
unfolding NotIn
Ring-prev_ne {h} {head} {xs} r e =
    NotIn-final 0 head xs r.non_null.0 r.non_null.1 (sym e ∙ r.head_prev)

pub Ring-head_ne : {h : Heap} {head : ℕ} {xs : List ℕ} → Ring h head xs → head ≢ 0
unfolding NotIn
Ring-head_ne r e = r.non_null.0 (sym e)

pub Ring-added :
    (h : Heap) (e head : ℕ) (xs : List ℕ)
    → Ring h head xs
    → e ≢ 0
    → NotIn e (head ∷ xs)
    → Ring (added h e head (final head xs)) head (xs ++ e ∷ [])
unfolding NotIn Distinct Chain
Ring-added h e head xs r en n =
    let c1 = Chain-set_next h e head head xs n.0 n.1 r.chain in
    let h1 = set_next h e head in
    let c2 = Chain-set_prev h1 e (final head xs) head xs n.1 c1 in
    let h2 = set_prev h1 e (final head xs) in
    let c3 = Chain-set_next-final h2 e head xs r.distinct c2 in
    let h3 = set_next h2 (final head xs) e in
    let c4 = Chain-set_prev h3 head e head xs r.distinct.0 c3 in
    let h4 = set_prev h3 head e in
    let apart = NotIn-final e head xs n.0 n.1 in
    record {
      chain = (Chain-append h4 head xs (e ∷ [])).1 (
        c4,
        (
          update_same h2.next (final head xs) e,
          update_other h3.prev head e e n.0 ∙ update_same h1.prev e (final head xs),
          tt,
        ),
      );
      last_next =
          rw (final-append head xs e [])
            (update_other h2.next (final head xs) e e apart ∙ update_same h.next e head);
      head_prev = rw (final-append head xs e []) (update_same h3.prev head e);
      distinct =
          (Distinct-append (head ∷ xs) (e ∷ [])).1
            (r.distinct, (tt, tt), NotIn→Disjoint e (head ∷ xs) n);
      non_null = (NotIn-append 0 (head ∷ xs) (e ∷ [])).1 (r.non_null, (λ q. en (sym q), tt));
    }

-- `list_init` makes an empty list of any entry.
pub list_init-Ring :
    (h : Heap) (e : ℕ) → e ≢ 0 → (h' : Heap) × (list_init e h ≡ ok h') × Ring h' e []
unfolding list_init Chain Distinct NotIn
list_init-Ring h e n = (
  set_prev (set_next h e e) e e,
  ground arith,
  record {
    chain = tt;
    last_next = update_same h.next e e;
    head_prev = update_same h.prev e e;
    distinct = (tt, tt);
    non_null = (λ q. n (sym q), tt);
  },
)

-- `list_add` puts a new entry at the end of its list, and changes no list apart from it.
pub list_add-Ring :
    (h : Heap) (e head : ℕ) (xs : List ℕ) (other : ℕ) (ys : List ℕ)
    → Ring h head xs
    → Ring h other ys
    → e ≢ 0
    → NotIn e (head ∷ xs)
    → NotIn e (other ∷ ys)
    → Disjoint (head ∷ xs) (other ∷ ys)
    → (h' : Heap) × (list_add e head h ≡ ok h') × Ring h' head (xs ++ e ∷ []) × Ring h' other ys
unfolding NotIn Disjoint
list_add-Ring h e head xs other ys r o en n m d =
    let last = final head xs in
    let h1 = set_next h e head in
    let h2 = set_prev h1 e last in
    let h3 = set_next h2 last e in
    let o1 = Ring-set_next h other ys e head m o in
    let o2 = Ring-set_prev h1 other ys e last m o1 in
    let o3 = Ring-set_next h2 other ys last e (Disjoint-final head xs (other ∷ ys) d) o2 in
    (
      set_prev h3 head e,
      list_add-added h e head en (Ring-head_ne r) n.0 (Ring-prev_ne r)
          ∙ ap (λ l. ok (added h e head l)) r.head_prev,
      Ring-added h e head xs r en n,
      Ring-set_prev h3 other ys head e d.0 o3,
    )
