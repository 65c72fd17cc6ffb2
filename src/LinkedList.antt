-- ===== src/LinkedList.antt =====
-- The doubly linked lists of openusb/src/list.c and list.h: a ring of `struct list_head` through a
-- head. An address is a number and 0 is NULL; the heap gives the two members at every address, and
-- following NULL is a fault. Freed memory is not told apart.
pub mod Chains
pub mod Rings
pub mod Adding
pub mod Removing
pub mod Walks
pub mod Moving
use libopenusb.Prelude.{◌==◌, if◌then◌else◌, pos, ℕ, zero, suc, Bool, ◌||◌, List, [], ◌∷◌}
use libopenusb.Run.{Run, ok, fault, no_fuel, ◌>>=◌}

pub record Heap : Type 0 where
  pub prev : ℕ → ℕ
  pub next : ℕ → ℕ

abbrev pub update : (ℕ → ℕ) → ℕ → ℕ → ℕ → ℕ
update f p v q = if q == p then v else f q

abbrev pub set_prev : Heap → ℕ → ℕ → Heap
set_prev h p v = record h { prev = update h.prev p v }

abbrev pub set_next : Heap → ℕ → ℕ → Heap
set_next h p v = record h { next = update h.next p v }

-- p->prev and p->next, read and written
unfoldable pub load_prev : Heap → ℕ → Run ℕ
load_prev h p = if p == 0 then fault else ok (h.prev p)

unfoldable pub load_next : Heap → ℕ → Run ℕ
load_next h p = if p == 0 then fault else ok (h.next p)

unfoldable pub store_prev : Heap → ℕ → ℕ → Run Heap
store_prev h p v = if p == 0 then fault else ok (set_prev h p v)

unfoldable pub store_next : Heap → ℕ → ℕ → Run Heap
store_next h p v = if p == 0 then fault else ok (set_next h p v)

unfoldable pub list_init : ℕ → Heap → Run Heap
unfolding store_prev store_next
list_init entry h = do h1 ← store_next h entry entry; store_prev h1 entry entry

unfoldable pub list_add : ℕ → ℕ → Heap → Run Heap
unfolding load_prev store_prev store_next
list_add entry head h = do
  h1 ← store_next h entry head
  last ← load_prev h1 head
  h2 ← store_prev h1 entry last
  last' ← load_prev h2 head
  h3 ← store_next h2 last' entry
  store_prev h3 head entry

-- The rest of `list_del`, for an entry with both pointers
unfoldable pub unlink : ℕ → ℕ → ℕ → Heap → Run Heap
unfolding load_prev load_next store_prev store_next
unlink entry p n h = do
  h1 ← store_prev h n p
  p' ← load_prev h1 entry
  n' ← load_next h1 entry
  h2 ← store_next h1 p' n'
  h3 ← store_prev h2 entry 0
  store_next h3 entry 0

unfoldable pub list_del : ℕ → Heap → Run Heap
unfolding load_prev load_next unlink
list_del entry h = do
  p ← load_prev h entry
  n ← load_next h entry
  if p == 0 || n == 0 then ok h else unlink entry p n h

unfoldable pub list_empty : ℕ → Heap → Run Bool
unfolding load_next
list_empty entry h = do n ← load_next h entry; ok (n == entry)

-- list_for_each_entry from an entry: the entries that the loop visits. `none` means that the fuel
-- ran out.
unfoldable pub entries_from : ℕ → ℕ → ℕ → Heap → Run (List ℕ)
unfolding load_next
entries_from zero head at h = if at == head then ok [] else no_fuel
entries_from (suc fuel) head at h =
    if at == head
    then ok []
    else do n ← load_next h at; rest ← entries_from fuel head n h; ok (at ∷ rest)

unfoldable pub list_for_each : ℕ → ℕ → Heap → Run (List ℕ)
unfolding load_next
list_for_each fuel head h = do n ← load_next h head; entries_from fuel head n h
