-- ===== src/Examples/VrfRuns.antt =====
-- Runs of the VRF functions: a taken route distinguisher, and one that is None.
use netlab.Prelude.{
  ◌≡◌, ◌≢◌, refl, String, true, false, some, List, [], ◌∷◌, eqb, if◌then◌else◌, arith,
}
use netlab.Data.{
  Value, null, pos, int, str, dict, Fields, end, entry, get, has, put, keys, truthy, is_in,
  value_eq,
}
use netlab.Data.Appending.{append_new}
use netlab.Ids.{Vars, unset, update, get_next_id, get_id_set}
use netlab.Ids.Drawing.{counter}
use netlab.Vrf.Search.{found, out_of_fuel, get_next_vrf_id}
use netlab.Vrf.SearchLaws.{vrf_rds, vrf_ids, get_next_vrf_id_ends, get_next_vrf_id_fresh}
use netlab.Vrf.Assign.{set_vrf_ids}

abbrev rd_of_as : Value → Value → String
rd_of_as asn (int (pos n)) = if eqb n 1 then "65000:1" else if eqb n 2 then "65000:2" else "65000:3"
rd_of_as asn v = ""

abbrev as_65000 : Value
as_65000 = int (pos 65000)

abbrev taken_rds : List Value
taken_rds = str "65000:1" ∷ []

abbrev vrf_vars : Vars
vrf_vars =
    update (update (λ _. unset) "vrf_rd" (record unset { value = some taken_rds })) "vrf_id"
      (counter [] 1 5)

abbrev rd_vars : Vars
rd_vars = update vrf_vars "vrf_rd" (record unset { value = some taken_rds })

abbrev id_vars : Vars
id_vars =
    update (update rd_vars "vrf_id" (counter (append_new [] (int (pos 1))) 1 5)) "vrf_id"
      (counter (append_new (append_new [] (int (pos 1))) (int (pos 2))) 2 5)

abbrev found_vars : Vars
found_vars = update id_vars "vrf_rd" (record unset {
  value = some (append_new (append_new taken_rds (str "65000:2")) (int (pos 2)));
})

second_id : get_next_vrf_id rd_of_as as_65000 vrf_vars ≡ found 2 found_vars
unfolding get_next_vrf_id get_next_id get_id_set is_in value_eq append_new
second_id = refl

ends_example : get_next_vrf_id rd_of_as as_65000 vrf_vars ≢ out_of_fuel
ends_example = get_next_vrf_id_ends rd_of_as as_65000 vrf_vars [] 1 5 refl (omega arith)

fresh_example :
    (is_in (str "65000:2") (vrf_rds vrf_vars) ≡ false)
    × (is_in (str "65000:2") (vrf_rds found_vars) ≡ true)
    × (is_in (int (pos 2)) [] ≡ false)
    × (is_in (int (pos 2)) (vrf_ids found_vars) ≡ true)
fresh_example =
    get_next_vrf_id_fresh rd_of_as as_65000 vrf_vars [] 1 5 refl (omega arith) 2 found_vars
      second_id

-- The route distinguisher of a VRF that only the node has stays None.
abbrev node_with : Fields → Fields
node_with vrf =
    entry "bgp" (dict (entry "as" as_65000 end))
      (entry "vrfs" (dict (entry "red" (dict vrf) end)) end)

none_is_kept :
    set_vrf_ids rd_of_as false (node_with (entry "rd" null end)) end vrf_vars
    ≡ some (node_with (entry "rd" null (entry "id" (int (pos 2)) end)), found_vars, [])
unfolding set_vrf_ids get_next_id get_id_set is_in value_eq append_new get has put keys truthy
none_is_kept = refl
