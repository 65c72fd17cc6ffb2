-- ===== src/Devices/Refreshing.antt =====
-- The busses after they have been compared with what a backend finds (`refresh_bus` of
-- openusb/src/devices.c).
use libopenusb.Prelude.{
  ◌==◌, Bool-cases, length, pos, ℕ, ◌+◌, ◌%◌, ◌^◌, ◌≤◌, ◌<◌, ◌≡◌, refl, sym, ap, subst, ◌⊎◌, inl,
  inr, ◌||◌, Option, none, some, List, [], ◌∷◌, ◌++◌, arith,
}
use libopenusb.Devices.{
  Bus, System, usbi_add_bus, without_known, compare_buses, add_buses, refresh_bus,
}

-- The ids rise from `lo` on below `hi`.
unfoldable pub Rising : ℕ → ℕ → List Bus → Type 0
Rising lo hi [] = Unit {0}
Rising lo hi (b ∷ bs) = (lo ≤ b.busid) × (b.busid < hi) × Rising (b.busid + 1) hi bs

pub Rising-weaken :
    (lo lo' hi hi' : ℕ) (bs : List Bus) → lo' ≤ lo → hi ≤ hi' → Rising lo hi bs → Rising lo' hi' bs
unfolding Rising
Rising-weaken lo lo' hi hi' [] l u r = tt
Rising-weaken lo lo' hi hi' (b ∷ bs) l u r = (
  omega (arith, r.0),
  omega (arith, r.1),
  Rising-weaken (b.busid + 1) (b.busid + 1) hi hi' bs (omega arith) u r.2,
)

pub Rising-snoc :
    (lo hi : ℕ) (bs : List Bus) (b : Bus)
    → b.busid ≡ hi
    → lo ≤ hi
    → Rising lo hi bs
    → Rising lo (hi + 1) (bs ++ b ∷ [])
unfolding Rising
Rising-snoc lo hi [] b e l r = (omega arith, omega arith, tt)
Rising-snoc lo hi (x ∷ xs) b e l r =
    (r.0, omega (arith, r.1), Rising-snoc (x.busid + 1) hi xs b e (omega (arith, r.1)) r.2)

Option-cases {ℓ} : {A : Type ℓ} (w : Option A) → ((a : A) × (w ≡ some a)) ⊎ (w ≡ none)
Option-cases none = inr refl
Option-cases (some a) = inl (a, refl)

compare_buses-gone :
    (b : Bus) (bs found : List Bus)
    → without_known b found ≡ none
    → compare_buses (b ∷ bs) found ≡ compare_buses bs found
unfolding compare_buses
compare_buses-gone b bs found e = rw (e, compare_buses) refl

compare_buses-kept :
    (b : Bus) (bs found rest : List Bus)
    → without_known b found ≡ some rest
    → compare_buses (b ∷ bs) found ≡ (b ∷ (compare_buses bs rest).0, (compare_buses bs rest).1)
unfolding compare_buses
compare_buses-kept b bs found rest e = rw (e, compare_buses) refl

-- Busses that are gone leave the order of the rest.
compare_buses-Rising :
    (lo hi : ℕ) (bs found : List Bus) → Rising lo hi bs → Rising lo hi (compare_buses bs found).0
unfolding compare_buses Rising
compare_buses-Rising lo hi [] found r = tt
compare_buses-Rising lo hi (b ∷ bs) found r = elim (Option-cases (without_known b found)) [
  | inr e ↦
      subst (λ x. Rising lo hi x.0) (sym (compare_buses-gone b bs found e))
        (Rising-weaken (b.busid + 1) lo hi hi (compare_buses bs found).0 (omega (arith, r.0))
          (omega arith) (compare_buses-Rising (b.busid + 1) hi bs found r.2))
  | inl (rest, e) ↦
      subst (λ x. Rising lo hi x.0) (sym (compare_buses-kept b bs found rest e))
        (r.0, r.1, compare_buses-Rising (b.busid + 1) hi bs rest r.2)
]

without_known-le :
    (b : Bus) (found rest : List Bus)
    → without_known b found ≡ some rest
    → length rest ≤ length found
unfolding without_known
without_known-le b [] rest e = absurd (cc e)
without_known-le b (n ∷ ns) rest e =
    elim (Bool-cases (b.busnum == n.busnum || b.sys_path == n.sys_path)) [
      | inl t ↦
          let same : some ns ≡ some rest = rw t at e in
          let q : ns ≡ rest = cc same in omega (arith, ap length q)
      | inr t ↦ elim (Option-cases (without_known b ns)) [
        | inr none_left ↦ absurd (ground (arith, t, none_left, e))
        | inl (l, some_left) ↦
            let same : some (n ∷ l) ≡ some rest = rw (t, some_left) at e in
            let q : n ∷ l ≡ rest = cc same in
            omega (arith, ap length q, without_known-le b ns l some_left)
      ]
    ]

compare_buses-le : (bs found : List Bus) → length (compare_buses bs found).1 ≤ length found
unfolding compare_buses
compare_buses-le [] found = omega arith
compare_buses-le (b ∷ bs) found = elim (Option-cases (without_known b found)) [
  | inr e ↦
      subst (λ x. length x.1 ≤ length found) (sym (compare_buses-gone b bs found e))
        (compare_buses-le bs found)
  | inl (rest, e) ↦
      subst (λ x. length x.1 ≤ length found) (sym (compare_buses-kept b bs found rest e))
        (omega (arith, compare_buses-le bs rest, without_known-le b found rest e))
]

add_buses-Rising :
    (bs : List Bus) (sys : System)
    → 1 ≤ sys.cur_bus_id
    → sys.cur_bus_id + length bs < 2 ^ 64
    → Rising 1 sys.cur_bus_id sys.buses
    → (Rising 1 (add_buses bs sys).cur_bus_id (add_buses bs sys).buses)
      × ((add_buses bs sys).cur_bus_id ≡ sys.cur_bus_id + length bs)
unfolding add_buses usbi_add_bus
add_buses-Rising [] sys p l r = (r, omega arith)
add_buses-Rising (b ∷ bs) sys p l r =
    let w : (sys.cur_bus_id + 1) % 2 ^ 64 ≡ sys.cur_bus_id + 1 = omega arith in
    let b' : Bus = record b { busid = sys.cur_bus_id; devices = [] } in
    let ih =
      add_buses-Rising bs (usbi_add_bus b sys) (omega (arith, w)) (omega (arith, w))
        (rw w (Rising-snoc 1 sys.cur_bus_id sys.buses b' refl p r)) in
    (ih.0, omega (arith, ih.1, w))

add_buses-devices : (bs : List Bus) (sys : System) → (add_buses bs sys).devices ≡ sys.devices
unfolding add_buses usbi_add_bus
add_buses-devices [] sys = refl
add_buses-devices (b ∷ bs) sys = add_buses-devices bs (usbi_add_bus b sys)

-- After a refresh the ids of the busses still rise, so that no two have the same, not more ids have
-- been given than the backend has found busses, and the list of devices is as it was.
pub refresh_bus-Rising :
    (ret : ℕ) (found : List Bus) (sys : System)
    → 1 ≤ sys.cur_bus_id
    → sys.cur_bus_id + length found < 2 ^ 64
    → Rising 1 sys.cur_bus_id sys.buses
    → Rising 1
        (refresh_bus (some (pos ret, found)) sys).cur_bus_id
        (refresh_bus (some (pos ret, found)) sys).buses
      × ((refresh_bus (some (pos ret, found)) sys).cur_bus_id ≤ sys.cur_bus_id + length found)
      × ((refresh_bus (some (pos ret, found)) sys).devices ≡ sys.devices)
unfolding refresh_bus
refresh_bus-Rising ret found sys p l r =
    let c = compare_buses sys.buses found in
    let less = compare_buses-le sys.buses found in
    let kept = compare_buses-Rising 1 sys.cur_bus_id sys.buses found r in
    let a = add_buses-Rising c.1 (record sys { buses = c.0 }) p (omega (arith, less)) kept in
    (a.0, omega (arith, a.1, less), add_buses-devices c.1 (record sys { buses = c.0 }))
