-- ===== src/Queries/Configs.antt =====
-- The index and the value of a configuration: `usbi_get_cfg_value_by_index` and
-- `usbi_get_cfg_index_by_value` of openusb/src/devices.c, on the configurations of a device that
-- `usbi_fetch_and_parse_descriptors` has answered for with its code. `none` is a null handle.
use libopenusb.Prelude.{
  ◌==◌, if◌then◌else◌, Bool-cases, get_elem?, ℤ, pos, negsuc, is_neg, ℕ, suc, ◌+◌, ◌≡◌, refl, inl,
  inr, Bool, true, false, not, ◌||◌, Option, none, some, List, [], ◌∷◌, arith,
}
use libopenusb.Descriptors.{Config}
use libopenusb.Interfaces.{is_zero}

-- The code of the refreshing, and the configurations after it.
abbrev pub Refreshed : Type 0
Refreshed = Option (ℤ × List Config)

unfoldable pub usbi_get_cfg_value_by_index : Refreshed → ℤ → ℕ
usbi_get_cfg_value_by_index none i = 0
usbi_get_cfg_value_by_index (some (code, configs)) (negsuc i) = 0
usbi_get_cfg_value_by_index (some (code, configs)) (pos i) =
    if is_zero code
    then elim (get_elem? configs i) [ some c ↦ c.desc.b_configuration_value | none ↦ 0 ]
    else 0

-- The loop, from index `i` on.
unfoldable pub find_value : ℕ → ℕ → List Config → ℤ
find_value cfgval i [] = negsuc 0
find_value cfgval i (c ∷ cs) =
    let rest = find_value cfgval (i + 1) cs in
    if c.desc.b_configuration_value == cfgval then pos i else rest

unfoldable pub usbi_get_cfg_index_by_value : Refreshed → ℕ → ℤ
usbi_get_cfg_index_by_value none cfgval = negsuc 0
usbi_get_cfg_index_by_value (some (code, configs)) cfgval =
    if is_zero code then find_value cfgval 0 configs else negsuc 0

-- Does a configuration of the list have the value?
abbrev pub has_value : ℕ → List Config → Bool
has_value cfgval [] = false
has_value cfgval (c ∷ cs) = c.desc.b_configuration_value == cfgval || has_value cfgval cs

find_value-found :
    (cfgval i : ℕ) (cs : List Config)
    → has_value cfgval cs ≡ true
    → (k : ℕ) × (c : Config) × (find_value cfgval i cs ≡ pos (i + k))
      × (get_elem? cs k ≡ some c)
      × (c.desc.b_configuration_value ≡ cfgval)
unfolding find_value
find_value-found cfgval i [] h = absurd (ground arith)
find_value-found cfgval i (c ∷ cs) h = elim (Bool-cases (c.desc.b_configuration_value == cfgval)) [
  | inl e ↦ (0, c, ground arith, refl, ground arith)
  | inr n ↦
      let ih = find_value-found cfgval (i + 1) cs (ground arith) in
      (suc ih.0, ih.1, ground (arith, ih.2), ih.3, ih.4)
]

find_value-absent :
    (cfgval i : ℕ) (cs : List Config)
    → has_value cfgval cs ≡ false
    → find_value cfgval i cs ≡ negsuc 0
unfolding find_value
find_value-absent cfgval i [] h = refl
find_value-absent cfgval i (c ∷ cs) h = ground (arith, find_value-absent cfgval (i + 1) cs)

-- On a device whose descriptors have been refreshed with code 0, a value that one of its
-- configurations has leads to an index that leads back to the value; any other value leads to a
-- negative index, and this to the value 0.
pub cfg_index-value :
    (configs : List Config) (cfgval : ℕ)
    → (usbi_get_cfg_value_by_index
          (some (pos 0, configs))
          (usbi_get_cfg_index_by_value (some (pos 0, configs)) cfgval)
        ≡ (if has_value cfgval configs then cfgval else 0))
      × (is_neg (usbi_get_cfg_index_by_value (some (pos 0, configs)) cfgval)
          ≡ not (has_value cfgval configs))
unfolding usbi_get_cfg_value_by_index usbi_get_cfg_index_by_value
cfg_index-value configs cfgval = elim (Bool-cases (has_value cfgval configs)) [
  | inl h ↦
      let f = find_value-found cfgval 0 configs h in
      (ground (arith, f.2, f.3, f.4, h), ground (arith, f.2, h))
  | inr n ↦
      let f = find_value-absent cfgval 0 configs n in (ground (arith, f, n), ground (arith, f, n))
]
