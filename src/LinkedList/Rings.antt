-- ===== src/LinkedList/Rings.antt =====
-- The lists of openusb/src/list.c as lists of addresses: a ring through a head stands for the
-- entries in its order.
use libopenusb.Prelude.{ℕ, ◌≡◌, sym, ◌∙◌, ◌≢◌, List, ◌∷◌, arith}
use libopenusb.Run.{ok}
use libopenusb.LinkedList.{Heap, set_prev, set_next, list_add, list_del}
use libopenusb.LinkedList.Chains.{
  NotIn, Distinct, Chain, final, update_other, NotIn-final, Chain-set_prev, Chain-set_next,
}

pub record Ring (h : Heap) (head : ℕ) (xs : List ℕ) : Type 0 where
  pub chain : Chain h head xs
  pub last_next : h.next (final head xs) ≡ head
  pub head_prev : h.prev head ≡ final head xs
  pub distinct : Distinct (head ∷ xs)
  pub non_null : NotIn 0 (head ∷ xs)

-- The heap after `list_add` and `list_del`, with the pointers that they read.
abbrev pub added : Heap → ℕ → ℕ → ℕ → Heap
added h e head last = set_prev (set_next (set_prev (set_next h e head) e last) last e) head e

abbrev pub removed : Heap → ℕ → ℕ → ℕ → Heap
removed h e p n = set_next (set_prev (set_next (set_prev h n p) p n) e 0) e 0

pub list_add-added :
    (h : Heap) (e head : ℕ)
    → e ≢ 0
    → head ≢ 0
    → e ≢ head
    → h.prev head ≢ 0
    → list_add e head h ≡ ok (added h e head (h.prev head))
unfolding list_add
list_add-added h e head en hn d ln = ground arith

pub list_del-removed :
    (h : Heap) (e : ℕ)
    → e ≢ 0
    → h.prev e ≢ 0
    → h.next e ≢ 0
    → h.next e ≢ e
    → h.prev e ≢ e
    → list_del e h ≡ ok (removed h e (h.prev e) (h.next e))
unfolding list_del
list_del-removed h e en pn nn d dp = ground arith

-- A write outside a ring.
module _ (h : Heap) (head : ℕ) (xs : List ℕ) where
  pub Ring-set_prev :
      (p v : ℕ) → NotIn p (head ∷ xs) → Ring h head xs → Ring (set_prev h p v) head xs
  unfolding NotIn
  Ring-set_prev p v n r = record {
    chain = Chain-set_prev h p v head xs n.1 r.chain;
    last_next = r.last_next;
    head_prev = update_other h.prev p v head (λ e. n.0 (sym e)) ∙ r.head_prev;
    distinct = r.distinct;
    non_null = r.non_null;
  }

  pub Ring-set_next :
      (p v : ℕ) → NotIn p (head ∷ xs) → Ring h head xs → Ring (set_next h p v) head xs
  unfolding NotIn
  Ring-set_next p v n r = record {
    chain = Chain-set_next h p v head xs n.0 n.1 r.chain;
    last_next =
        update_other h.next p v (final head xs) (λ e. NotIn-final p head xs n.0 n.1 (sym e))
        ∙ r.last_next;
    head_prev = r.head_prev;
    distinct = r.distinct;
    non_null = r.non_null;
  }
