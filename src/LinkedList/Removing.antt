-- ===== src/LinkedList/Removing.antt =====
-- `list_del` of openusb/src/list.c.
use libopenusb.Prelude.{ℕ, ◌≡◌, refl, sym, ap, ◌∙◌, ◌≢◌, List, [], ◌∷◌, ◌++◌, arith}
use libopenusb.LinkedList.{Heap, set_prev, set_next, list_del, ok}
use libopenusb.LinkedList.Chains.{
  NotIn, Distinct, Chain, final, update_same, update_other, NotIn-final, NotIn-append, final-append,
  Chain-append, Chain-set_prev, Chain-set_next, Chain-set_next-final, Disjoint, Distinct-append,
  Disjoint-tail, Disjoint-final,
}
use libopenusb.LinkedList.Rings.{Ring, removed, Ring-set_next, list_del-removed, Ring-set_prev}
use libopenusb.LinkedList.Walks.{first, Chain-first}

-- The pointers around an entry of a ring.
pub Ring-next :
    (h : Heap) (head x : ℕ) (xs ys : List ℕ) → Ring h head (xs ++ x ∷ ys) → h.next x ≡ first ys head
unfolding Chain
Ring-next h head x xs ys r =
    let c = (Chain-append h head xs (x ∷ ys)).0 r.chain in
    Chain-first h x ys head c.1.2 (ap h.next (sym (final-append head xs x ys)) ∙ r.last_next)

pub Ring-prev :
    (h : Heap) (head x : ℕ) (xs ys : List ℕ) → Ring h head (xs ++ x ∷ ys) → h.prev x ≡ final head xs
unfolding Chain
Ring-prev h head x xs ys r = ((Chain-append h head xs (x ∷ ys)).0 r.chain).1.1

-- A chain goes through the four writes that touch no pointer of it.
pub Chain-removed :
    (h : Heap) (e p n a : ℕ) (xs : List ℕ)
    → e ≢ a
    → NotIn e xs
    → NotIn n xs
    → Chain (set_next (set_prev h n p) p n) a xs
    → Chain (removed h e p n) a xs
Chain-removed h e p n a xs d ne nn c =
    let h2 = set_next (set_prev h n p) p n in
    Chain-set_next (set_prev h2 e 0) e 0 a xs d ne (Chain-set_prev h2 e 0 a xs ne c)

pub NotIn-first : (p : ℕ) (ys : List ℕ) (b : ℕ) → NotIn p ys → p ≢ b → p ≢ first ys b
unfolding NotIn
NotIn-first p [] b n d = d
NotIn-first p (y ∷ ys) b n d = n.0

pub Disjoint-first : (xs ys : List ℕ) (b : ℕ) → Disjoint xs ys → NotIn b xs → NotIn (first ys b) xs
Disjoint-first xs [] b d n = n
Disjoint-first xs (y ∷ ys) b d n = (Disjoint-tail xs y ys d).0

-- The entry in the middle of a ring: the lists around it are apart, and it is in none.
pub record Around (head x : ℕ) (xs ys : List ℕ) : Type 0 where
  pub x_head : x ≢ head
  pub x_xs : NotIn x xs
  pub x_ys : NotIn x ys
  pub head_xs : NotIn head xs
  pub head_ys : NotIn head ys
  pub apart : Disjoint (head ∷ xs) ys
  pub left : Distinct (head ∷ xs)
  pub right : Distinct ys

pub Ring-Around :
    (h : Heap) (head x : ℕ) (xs ys : List ℕ) → Ring h head (xs ++ x ∷ ys) → Around head x xs ys
unfolding Distinct NotIn Disjoint
Ring-Around h head x xs ys r =
    let d = (Distinct-append (head ∷ xs) (x ∷ ys)).0 r.distinct in
    let t = Disjoint-tail (head ∷ xs) x ys d.2 in
    record {
      x_head = t.0.0;
      x_xs = t.0.1;
      x_ys = d.1.0;
      head_xs = d.0.0;
      head_ys = d.2.0.1;
      apart = t.1;
      left = d.0;
      right = d.1.1;
    }

pub final_append : (a : ℕ) (xs ys : List ℕ) → final a (xs ++ ys) ≡ final (final a xs) ys
final_append a [] ys = refl
final_append a (x ∷ xs) ys = final_append x xs ys

-- The ring closes behind the entries that are left.
record Closed (h : Heap) (head p : ℕ) (ys : List ℕ) : Type 0 where
  pub right_chain : Chain h p ys
  pub right_next : h.next (final p ys) ≡ head
  pub right_prev : h.prev head ≡ final p ys

Closed-removed :
    (h : Heap) (head x : ℕ) (xs ys : List ℕ)
    → Ring h head (xs ++ x ∷ ys)
    → (removed h x (final head xs) (first ys head)).next (final head xs) ≡ first ys head
    → (removed h x (final head xs) (first ys head)).prev (first ys head) ≡ final head xs
    → Closed (removed h x (final head xs) (first ys head)) head (final head xs) ys
unfolding Chain NotIn Distinct
Closed-removed h head x xs [] r pn np = record {
  right_chain = tt;
  right_next = pn;
  right_prev = np;
}
Closed-removed h head x xs (y ∷ ys) r pn np =
    let a = Ring-Around h head x xs (y ∷ ys) r in
    let p = final head xs in
    let h1 = set_prev h y p in
    let h2 = set_next h1 p y in
    let h3 = set_prev h2 x 0 in
    let c = (Chain-append h head xs (x ∷ y ∷ ys)).0 r.chain in
    let p_out = Disjoint-final head xs (y ∷ ys) a.apart in
    let c2 =
      Chain-set_next h1 p y y ys p_out.0 p_out.1 (Chain-set_prev h y p y ys a.right.0 c.1.2.2) in
    let p_last = NotIn-final p y ys p_out.0 p_out.1 in
    let x_last = NotIn-final x y ys a.x_ys.0 a.x_ys.1 in
    let last = final-append head xs x (y ∷ ys) in
    record {
      right_chain = (pn, np, Chain-removed h x p y y ys a.x_ys.0 a.x_ys.1 a.right.0 c2);
      right_next =
          update_other h3.next x 0 (final y ys) (λ e. x_last (sym e))
          ∙ update_other h1.next p y (final y ys) (λ e. p_last (sym e))
          ∙ ap h.next (sym last)
          ∙ r.last_next;
      right_prev =
          update_other h2.prev x 0 head (λ e. a.x_head (sym e))
          ∙ update_other h.prev y p head a.head_ys.0
          ∙ r.head_prev
          ∙ last;
    }

pub Ring-removed :
    (h : Heap) (head x : ℕ) (xs ys : List ℕ)
    → Ring h head (xs ++ x ∷ ys)
    → Ring (removed h x (final head xs) (first ys head)) head (xs ++ ys)
unfolding NotIn Disjoint Distinct Chain
Ring-removed h head x xs ys r =
    let a = Ring-Around h head x xs ys r in
    let p = final head xs in
    let n = first ys head in
    let h1 = set_prev h n p in
    let h2 = set_next h1 p n in
    let h' = removed h x p n in
    let c = (Chain-append h head xs (x ∷ ys)).0 r.chain in
    let n_xs = Disjoint-first xs ys head a.apart.1 a.head_xs in
    let xp = NotIn-final x head xs a.x_head a.x_xs in
    let xn = NotIn-first x ys head a.x_ys a.x_head in
    let left : Chain h' head xs =
      Chain-removed h x p n head xs a.x_head a.x_xs n_xs
        (Chain-set_next-final h1 n head xs a.left (Chain-set_prev h n p head xs n_xs c.0)) in
    let p_next : h'.next p ≡ n =
      update_other h2.next x 0 p (λ e. xp (sym e)) ∙ update_same h1.next p n in
    let n_prev : h'.prev n ≡ p =
      update_other h2.prev x 0 n (λ e. xn (sym e)) ∙ update_same h.prev n p in
    let d = (Distinct-append (head ∷ xs) ys).1 (a.left, a.right, a.apart) in
    let z = (NotIn-append 0 (head ∷ xs) (x ∷ ys)).0 r.non_null in
    let nn = (NotIn-append 0 (head ∷ xs) ys).1 (z.0, z.1.1) in
    let right = Closed-removed h head x xs ys r p_next n_prev in
    record {
      chain = (Chain-append h' head xs ys).1 (left, right.right_chain);
      last_next = rw (final_append head xs ys) right.right_next;
      head_prev = rw (final_append head xs ys) right.right_prev;
      distinct = d;
      non_null = nn;
    }

pub Ring-removed_other :
    (h : Heap) (x p n other : ℕ) (zs : List ℕ)
    → Ring h other zs
    → NotIn x (other ∷ zs)
    → NotIn p (other ∷ zs)
    → NotIn n (other ∷ zs)
    → Ring (removed h x p n) other zs
Ring-removed_other h x p n other zs o ox op on =
    let h1 = set_prev h n p in
    let h2 = set_next h1 p n in
    Ring-set_next (set_prev h2 x 0) other zs x 0 ox (
      Ring-set_prev h2 other zs x 0 ox
        (Ring-set_next h1 other zs p n op (Ring-set_prev h other zs n p on o)))

pub Disjoint-append : (xs ys zs : List ℕ) → Disjoint (xs ++ ys) zs → Disjoint xs zs × Disjoint ys zs
unfolding Disjoint
Disjoint-append [] ys zs d = (tt, d)
Disjoint-append (x ∷ xs) ys zs d = let r = Disjoint-append xs ys zs d.1 in ((d.0, r.0), r.1)

pub NotIn-first_of :
    (ys : List ℕ) (b : ℕ) (zs : List ℕ) → NotIn b zs → Disjoint ys zs → NotIn (first ys b) zs
unfolding Disjoint
NotIn-first_of [] b zs n d = n
NotIn-first_of (y ∷ ys) b zs n d = d.0

-- An entry that is on no list is left as it is.
pub list_del-unlinked : (h : Heap) (x : ℕ) → x ≢ 0 → h.prev x ≡ 0 → list_del x h ≡ ok h
unfolding list_del
list_del-unlinked h x n e = ground arith

-- `list_del` takes an entry out of its list, whichever list that is, keeps the order of the rest,
-- and changes no list apart from it; a second `list_del` of the entry changes nothing.
pub list_del-Ring :
    (h : Heap) (head x : ℕ) (xs ys : List ℕ) (other : ℕ) (zs : List ℕ)
    → Ring h head (xs ++ x ∷ ys)
    → Ring h other zs
    → Disjoint (head ∷ xs ++ x ∷ ys) (other ∷ zs)
    → (h' : Heap) × (list_del x h ≡ ok h')
      × Ring h' head (xs ++ ys)
      × Ring h' other zs
      × (list_del x h' ≡ ok h')
unfolding NotIn Disjoint
list_del-Ring h head x xs ys other zs r o d =
    let a = Ring-Around h head x xs ys r in
    let z = (NotIn-append 0 (head ∷ xs) (x ∷ ys)).0 r.non_null in
    let apart = Disjoint-append (head ∷ xs) (x ∷ ys) (other ∷ zs) d in
    let p = final head xs in
    let n = first ys head in
    let xn : x ≢ 0 = λ e. z.1.0 (sym e) in
    let px = NotIn-final x head xs a.x_head a.x_xs in
    let nx = NotIn-first x ys head a.x_ys a.x_head in
    let p0 = NotIn-final 0 head xs z.0.0 z.0.1 in
    let n0 = NotIn-first 0 ys head z.1.1 z.0.0 in
    let ep = Ring-prev h head x xs ys r in
    let en = Ring-next h head x xs ys r in
    (
      removed h x p n,
      list_del-removed h x xn (λ e. p0 (sym e ∙ ep)) (λ e. n0 (sym e ∙ en)) (λ e. nx (sym e ∙ en))
            (λ e. px (sym e ∙ ep))
          ∙ rw (ep, en) refl,
      Ring-removed h head x xs ys r,
      Ring-removed_other h x p n other zs o apart.1.0 (Disjoint-final head xs (other ∷ zs) apart.0)
          (NotIn-first_of ys head (other ∷ zs) apart.0.0 apart.1.1),
      list_del-unlinked (removed h x p n) x xn
          (update_same (set_next (set_prev h n p) p n).prev x 0),
    )
