-- ===== src/Examples/EvpnRuns.antt =====
-- Runs of vrf_transit_vni, with 200000 as the first transit VNI.
use netlab.Prelude.{ℕ, ◌<◌, ◌∷◌, false, ◌≡◌, refl, String, Option, none, some, true, []}
use netlab.Data.{
  ℤ, pos, Value, bool, int, dict, end, entry, get, has, put, pop, keys, is_in, value_eq, truthy,
}
use netlab.Types.Scalars.{int_status}
use netlab.Evpn.Transit.{vrf_transit_vni, get_next_vni}
use netlab.Evpn.NextVni.{get_next_vni_free}

abbrev no_int : String → Option ℤ
no_int s = none

abbrev transit : Value → Value
transit vni = dict (entry "evpn" (dict (entry "transit_vni" vni end)) end)

-- A VRF that asks for a number gets the static number of a VRF behind it.
same_vni_twice :
    vrf_transit_vni no_int 200000 "vxlan"
      (entry "red" (transit (bool true)) (entry "blue" (transit (int (pos 200000))) end))
    ≡ some (
      entry "red" (transit (int (pos 200000))) (entry "blue" (transit (int (pos 200000))) end),
      [],
    )
unfolding vrf_transit_vni get has put pop keys is_in value_eq truthy int_status
same_vni_twice = refl

-- In the other order it does not.
static_vni_first :
    vrf_transit_vni no_int 200000 "vxlan"
      (entry "blue" (transit (int (pos 200000))) (entry "red" (transit (bool true)) end))
    ≡ some (
      entry "blue" (transit (int (pos 200000))) (entry "red" (transit (int (pos 200001))) end),
      [],
    )
unfolding vrf_transit_vni get has put pop keys is_in value_eq truthy int_status
static_vni_first = refl

-- 200001 is in use.
next_vni_example :
    (n : ℕ) × (get_next_vni 200000 (int (pos 200001) ∷ int (pos 7) ∷ []) ≡ some n)
    × (200000 < n)
    × (is_in (int (pos n)) (int (pos 200001) ∷ int (pos 7) ∷ []) ≡ false)
    × ((k : ℕ)
        → 200000 < k
        → k < n
        → is_in (int (pos k)) (int (pos 200001) ∷ int (pos 7) ∷ []) ≡ true)
next_vni_example = get_next_vni_free 200000 (int (pos 200001) ∷ int (pos 7) ∷ [])
