-- ===== src/LinkedList/Moving.antt =====
-- An entry that goes from one list to another, as a request does when it is completed
-- (`usbi_io_complete` of openusb/src/io.c).
use libopenusb.Prelude.{ℕ, ◌≡◌, sym, List, [], ◌∷◌, ◌++◌}
use libopenusb.Run.{Run, ok, ◌>>=◌}
use libopenusb.LinkedList.{Heap, list_add, list_del}
use libopenusb.LinkedList.Chains.{NotIn, NotIn-append, Disjoint, Disjoint-sym, append-Disjoint}
use libopenusb.LinkedList.Rings.{Ring}
use libopenusb.LinkedList.Adding.{list_add-Ring}
use libopenusb.LinkedList.Removing.{Ring-Around, Disjoint-append, list_del-Ring}

-- list_del(entry); list_add(entry, head);
unfoldable pub list_move : ℕ → ℕ → Heap → Run Heap
list_move entry head h = do h1 ← list_del entry h; list_add entry head h1

-- An entry of one list that is deleted and added to another leaves the order of the first as it
-- is, and stands at the end of the second.
pub list_move-Ring :
    (h : Heap) (head x : ℕ) (xs ys : List ℕ) (other : ℕ) (zs : List ℕ)
    → Ring h head (xs ++ x ∷ ys)
    → Ring h other zs
    → Disjoint (head ∷ xs ++ x ∷ ys) (other ∷ zs)
    → (h' : Heap) × (list_move x other h ≡ ok h')
      × Ring h' head (xs ++ ys)
      × Ring h' other (zs ++ x ∷ [])
unfolding list_move NotIn Disjoint
list_move-Ring h head x xs ys other zs r o d =
    let a = Ring-Around h head x xs ys r in
    let z = (NotIn-append 0 (head ∷ xs) (x ∷ ys)).0 r.non_null in
    let apart = Disjoint-append (head ∷ xs) (x ∷ ys) (other ∷ zs) d in
    let rest = append-Disjoint (head ∷ xs) ys (other ∷ zs) apart.0 apart.1.1 in
    let (h1, e1, r1, o1, _) = list_del-Ring h head x xs ys other zs r o d in
    let (h2, e2, o2, r2) =
      list_add-Ring h1 x other zs head (xs ++ ys) o1 r1 (λ e. z.1.0 (sym e)) apart.1.0
        ((NotIn-append x (head ∷ xs) ys).1 ((a.x_head, a.x_xs), a.x_ys))
        (Disjoint-sym (head ∷ xs ++ ys) (other ∷ zs) rest) in
    (h2, rw e1 e2, r2, o2)
