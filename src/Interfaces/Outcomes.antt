-- ===== src/Interfaces/Outcomes.antt =====
-- What claiming, releasing and choosing an alternate setting do over any backend that answers.
use libopenusb.Prelude.{
  ltb, if◌then◌else◌, ge→ltb, length, get_elem?, set, get_elem?-ge, ℤ, pos, negsuc, ℕ, ◌<◌, ◌≡◌,
  refl, Bool, true, false, some, arith, List, ◌≤◌,
}
use libopenusb.Codes.{badarg, parse_error}
use libopenusb.Run.{ok, fault, no_fuel}
use libopenusb.Descriptors.{Config}
use libopenusb.Interfaces.{
  IfcSet, DevHandle, Ops, max_interfaces, is_claimed, is_zero, at_index, lock, unlock, set_claim,
  not_valid, openusb_claim_interface, openusb_is_interface_claimed, openusb_release_interface,
  openusb_set_altsetting, openusb_get_altsetting,
}

-- Nobody holds the mutex.
abbrev pub idle : {W : Type 0} → DevHandle W → DevHandle W
idle h = record h { locked = false }

abbrev pub held : {W : Type 0} → DevHandle W → DevHandle W
held h = record h { locked = true }

abbrev pub with_claim : {W : Type 0} → DevHandle W → ℕ → IfcSet → DevHandle W
with_claim h ifc s = record h { claimed_ifs = set h.claimed_ifs ifc s }

-- An interface of the configuration in use.
pub record Known {W : Type 0} (h : DevHandle W) (ifc : ℕ) : Type 0 where
  pub index : ℕ
  pub cfg : Config
  pub chosen : h.cur_config_index ≡ pos index
  pub found : get_elem? h.configs index ≡ some cfg
  pub within : ifc < cfg.num_interfaces
  pub range : ifc < max_interfaces

pub at_index-some {ℓ} :
    {A : Type ℓ} (xs : List A) (i : ℕ) (a : A)
    → get_elem? xs i ≡ some a
    → at_index xs (pos i) ≡ ok a
unfolding at_index
at_index-some xs i a e = ground (arith, e)

pub at_index-past {ℓ} :
    {A : Type ℓ} (xs : List A) (i : ℕ) → length xs ≤ i → at_index xs (pos i) ≡ fault
unfolding at_index
at_index-past xs i h = ground (arith, get_elem?-ge xs i h)

module _ {W : Type 0} (ops : Ops W) (h : DevHandle W) (ifc : ℕ) where
  valid-Known : (l : Bool) → Known h ifc → not_valid (record h { locked = l }) ifc ≡ ok false
  unfolding not_valid at_index
  valid-Known l k = ground (arith, k.chosen, k.found, k.within, k.range)

  -- The backend grants the claim: it is recorded, with alternate setting 0.
  pub claim_granted :
      (flags : ℕ) (h' : DevHandle W)
      → Known h ifc
      → ops.fetch_and_parse (idle h) ≡ ok (pos 0, idle h)
      → ops.claim_interface (idle h) ifc flags ≡ ok (pos 0, idle h')
      → length h'.claimed_ifs ≡ max_interfaces
      → openusb_claim_interface ops (some (idle h)) ifc flags
        ≡ ok (pos 0, some (idle (with_claim h' ifc (record { clm = pos 1; altsetting = pos 0 }))))
  unfolding openusb_claim_interface lock unlock set_claim
  claim_granted flags h' k f c n =
      let small = ge→ltb max_interfaces ifc (omega (arith, k.range)) in
      let inside : ltb ifc (length h'.claimed_ifs) ≡ true = ground (arith, k.range) in
      rw (small, f, valid-Known true k, c, inside) refl

  -- Where the backend refuses the claim of an interface of the configuration in use, with a code
  -- other than 0, `openusb_claim_interface` returns this code and the handle as the backend left
  -- it, with the mutex free.
  pub claim_refused :
      (flags : ℕ) (r : ℤ) (h' : DevHandle W)
      → Known h ifc
      → ops.fetch_and_parse (idle h) ≡ ok (pos 0, idle h)
      → ops.claim_interface (idle h) ifc flags ≡ ok (r, idle h')
      → is_zero r ≡ false
      → openusb_claim_interface ops (some (idle h)) ifc flags ≡ ok (r, some (idle h'))
  unfolding openusb_claim_interface lock unlock
  claim_refused flags r h' k f c z =
      let small = ge→ltb max_interfaces ifc (omega (arith, k.range)) in
      rw (small, f, valid-Known true k, c, z) refl

  pub query :
      (s : IfcSet)
      → ifc < max_interfaces
      → get_elem? h.claimed_ifs ifc ≡ some s
      → openusb_is_interface_claimed (some (idle h)) ifc
        ≡ ok ((if is_claimed s.clm then pos 1 else pos 0), some (idle h))
  unfolding openusb_is_interface_claimed lock unlock
  query s r e =
      let small = ge→ltb max_interfaces ifc (omega arith) in
      rw (small, at_index-some h.claimed_ifs ifc s e) refl

  -- The backend works with the mutex held, and its code comes back.
  pub release_passes :
      (s : IfcSet) (r : ℤ) (h' : DevHandle W)
      → ifc < max_interfaces
      → get_elem? h.claimed_ifs ifc ≡ some s
      → is_claimed s.clm ≡ true
      → ops.release_interface (held h) ifc ≡ ok (r, held h')
      → openusb_release_interface ops (some (idle h)) ifc ≡ ok (r, some (idle h'))
  unfolding openusb_release_interface lock unlock is_claimed
  release_passes s r h' lt e c b =
      let small = ge→ltb max_interfaces ifc (omega arith) in rw (small, query s lt e, c, b) refl

  pub release_refused :
      (s : IfcSet)
      → ifc < max_interfaces
      → get_elem? h.claimed_ifs ifc ≡ some s
      → is_claimed s.clm ≡ false
      → openusb_release_interface ops (some (idle h)) ifc ≡ ok (badarg, some (idle h))
  unfolding openusb_release_interface lock unlock is_claimed
  release_refused s lt e c =
      let small = ge→ltb max_interfaces ifc (omega arith) in rw (small, query s lt e, c) refl

  -- Interface 32 passes the tests of the bounds of three functions, and is read behind the array of
  -- 32 entries.
  pub interface_32-fault :
      ifc ≡ max_interfaces
      → length h.claimed_ifs ≡ max_interfaces
      → (openusb_is_interface_claimed (some (idle h)) ifc ≡ fault)
        × (openusb_release_interface ops (some (idle h)) ifc ≡ fault)
        × (openusb_get_altsetting ops (some (idle h)) ifc ≡ fault)
  unfolding openusb_is_interface_claimed openusb_release_interface openusb_get_altsetting lock
  interface_32-fault e n =
      let small = ge→ltb max_interfaces ifc (omega arith) in
      let out = at_index-past h.claimed_ifs ifc (omega arith) in
      let asked : openusb_is_interface_claimed (some (idle h)) ifc ≡ fault = rw (small, out) refl in
      (asked, rw (small, out) refl, rw (small, out) refl)

  -- With a negative index of the configuration, `openusb_set_altsetting` on an interface below 32
  -- returns parse_error and keeps the mutex: asking whether an interface is claimed then waits
  -- for it forever.
  pub set_altsetting_keeps_lock :
      (alt other n : ℕ)
      → ifc < max_interfaces
      → other < max_interfaces
      → ops.fetch_and_parse (idle h) ≡ ok (pos 0, idle h)
      → h.cur_config_index ≡ negsuc n
      → (openusb_set_altsetting ops (some (idle h)) ifc alt ≡ ok (parse_error, some (held h)))
        × (openusb_is_interface_claimed (some (held h)) other ≡ no_fuel)
  unfolding openusb_set_altsetting openusb_is_interface_claimed lock unlock
  set_altsetting_keeps_lock alt other n lt lo f c =
      let small = ge→ltb max_interfaces ifc (omega arith) in
      let small_other = ge→ltb max_interfaces other (omega arith) in
      (rw (small, f, c) refl, rw small_other refl)
