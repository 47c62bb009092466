-- ===== src/Vrf/Search.antt =====
-- netsim/modules/vrf.py: init_vrf_static_ids, populate_vrf_static_ids and get_next_vrf_id.
use netlab.Prelude.{ℕ, zero, suc, ◌-◌, String, Option, none, some, List, [], ◌∷◌, if◌then◌else◌}
use netlab.Data.{Value, pos, int, str, Fields, is_in}
use netlab.Data.Appending.{append_new}
use netlab.Ids.{
  Vars, ids_of, update, build_id_set, get_id_set, create_id_set, extend_id_set, set_id_counter,
  get_next_id, extended,
}

unfoldable pub init_vrf_static_ids : Vars → Vars
unfolding create_id_set set_id_counter
init_vrf_static_ids vars =
    (set_id_counter "vrf_id" 1 4095 (create_id_set "vrf_rd" (create_id_set "vrf_id" vars).1).1).1

abbrev also_rds : Fields → Option Vars → Option Vars
also_rds obj none = none
also_rds obj (some vars) = extended "vrf_rd" (build_id_set obj "vrfs" "rd") vars

-- The topology, or one node.
unfoldable pub extend_vrf_ids : Fields → Vars → Option Vars
unfolding build_id_set extend_id_set
extend_vrf_ids obj vars = also_rds obj (extended "vrf_id" (build_id_set obj "vrfs" "id") vars)

-- The topology and the nodes, in that order; `none` is a fatal error.
unfoldable pub populate_vrf_static_ids : List Fields → Vars → Option Vars
unfolding extend_vrf_ids
populate_vrf_static_ids [] vars = some vars
populate_vrf_static_ids (obj ∷ objs) vars = elim (extend_vrf_ids obj vars) [
  | none ↦ none
  | some vars' ↦ populate_vrf_static_ids objs vars'
]

-- What the `while True` loop comes to: an identifier, the fatal error of get_next_id, or more rounds
-- than its fuel.
pub data Search : Type 0 where
  found : ℕ → Vars → Search
  no_id_left : Search
  out_of_fuel : Search

-- `rd_text` is f'{asn}:{vrf_id}'.
module _ (rd_text : Value → Value → String) where
  abbrev pub rd_round : (Vars → Search) → Value → List Value → Option (ℕ × Vars) → Search
  rd_round rest asn rd_set none = no_id_left
  rd_round rest asn rd_set (some (i, vars)) =
      let more = rest vars in
      if is_in (str (rd_text asn (int (pos i)))) rd_set then more else found i vars

  unfoldable pub search_rd : ℕ → Value → List Value → Vars → Search
  unfolding is_in get_next_id
  search_rd zero asn rd_set vars = out_of_fuel
  search_rd (suc fuel) asn rd_set vars =
      rd_round (λ vars'. search_rd fuel asn rd_set vars') asn rd_set (get_next_id "vrf_id" vars)

  -- One round for each identifier from the counter to its maximum, and one more.
  abbrev pub distance : Option ℕ → Option ℕ → ℕ
  distance (some next) (some max_value) = suc (suc (max_value - next))
  distance next max_value = suc zero

  abbrev pub vrf_rounds : Vars → ℕ
  vrf_rounds vars = distance (vars "vrf_id").next (vars "vrf_id").max

  -- rd_set.add(rd) and id_set.add(vrf_id): both names stand for the set of route distinguishers.
  abbrev pub add_found : Value → Search → Search
  add_found asn (found i vars) =
      let rds = append_new (ids_of (vars "vrf_rd").value) (str (rd_text asn (int (pos i)))) in
      found i (
        update vars "vrf_rd"
          (record (vars "vrf_rd") { value = some (append_new rds (int (pos i))) }))
  add_found asn s = s

  unfoldable pub get_next_vrf_id : Value → Vars → Search
  unfolding search_rd get_id_set append_new
  get_next_vrf_id asn vars =
      let r = get_id_set "vrf_rd" vars in add_found asn (search_rd (vrf_rounds r.1) asn r.0 r.1)
