-- ===== src/Examples/VxlanRuns.antt =====
-- Runs of the VXLAN functions on three nodes and on two VLANs.
use netlab.Prelude.{
  ◌≡◌, refl, ℕ, not, ◌&&◌, ◌==◌, any, true, false, none, some, Option, List, [], ◌∷◌, String, inl,
  inr, Bool-cases, some_inj, eq_iff, sym, ◌∙◌, subst,
}
use netlab.Data.{
  ℤ, pos, Value, bool, int, str, dict, list, nil, cons, Fields, end, entry, get, has, put, values,
  is_in, value_eq,
}
use netlab.Data.Appending.{append_new}
use netlab.Data.ListLaws.{IsUnique}
use netlab.Modules.Attributes.{inner_box}
use netlab.Ids.{Vars, update, unset, get_next_id, get_id_set}
use netlab.Ids.Drawing.{counter}
use netlab.Types.Scalars.{int_status}
use netlab.Vxlan.Vni.{assign_vni}
use netlab.Vxlan.VniLaws.{Sound, vlans_of, assign_vni_no_clash}
use netlab.Vxlan.NoClash.{vni_at}
use netlab.Vxlan.PostNode.{Numbered, module_post_node_transform}
use netlab.Vxlan.Vtep.{build_vtep_list, local_vtep_of, value_or_box}
use netlab.Vxlan.VtepLaws.{floods_to, build_vtep_list_members}

abbrev vlan_with : Value → Fields
vlan_with vni = entry "vni" vni end

abbrev leaf : String → Value → Fields
leaf vtep vni =
    entry "vlans" (dict (entry "red" (dict (vlan_with vni)) end))
      (entry "vxlan" (dict (entry "vtep" (str vtep) end)) end)

abbrev three_leaves : Fields
three_leaves = entry "l1" (dict (leaf "10.0.0.1" (int (pos 1010)))) (
    entry "l2" (dict (leaf "10.0.0.2" (int (pos 1010))))
      (entry "l3" (dict (leaf "10.0.0.2" (int (pos 1010)))) end))

abbrev leaf_names : List String
leaf_names = "l1" ∷ "l2" ∷ "l3" ∷ []

-- The anycast VTEP of two leaves is in the list of the third once.
anycast_once :
    (build_vtep_list (vlan_with (int (pos 1010))) "l1" leaf_names three_leaves).1
    ≡ str "10.0.0.2" ∷ []
unfolding build_vtep_list has get values value_eq is_in any
anycast_once = refl

abbrev no_vni_leaves : Fields
no_vni_leaves =
    entry "l1" (dict (leaf "10.0.0.1" (bool false)))
      (entry "l2" (dict (leaf "10.0.0.2" (bool false))) end)

-- Two VLANs for which no VNI is wanted have equal VNIs, False, and so a flood list.
false_is_flooded :
    (build_vtep_list (vlan_with (bool false)) "l1" ("l1" ∷ "l2" ∷ []) no_vni_leaves).1
    ≡ str "10.0.0.2" ∷ []
unfolding build_vtep_list has get values value_eq is_in any
false_is_flooded = refl

vtep_list_example :
    (is_in
        (str "10.0.0.2")
        (build_vtep_list (vlan_with (int (pos 1010))) "l1" leaf_names three_leaves).1
      ≡ (not (value_eq (str "10.0.0.2") (local_vtep_of "l1" three_leaves))
          && any
              (floods_to "l1"
                (value_or_box (get (vlan_with (int (pos 1010))) "vni"))
                three_leaves
                "10.0.0.2")
              leaf_names))
    × IsUnique (build_vtep_list (vlan_with (int (pos 1010))) "l1" leaf_names three_leaves).1
vtep_list_example =
    build_vtep_list_members (vlan_with (int (pos 1010))) "l1" leaf_names three_leaves "10.0.0.2"

-- The VNI that VLAN 10 would get is that of the other VLAN.
abbrev two_vlans : Fields
two_vlans =
    entry "blue" (dict (vlan_with (int (pos 1010))))
      (entry "red" (dict (entry "id" (int (pos 10)) end)) end)

abbrev switch : Fields → Fields
switch vlans =
    entry "vlans" (dict vlans) (
      entry "vxlan" (dict (entry "vlans" (list (cons (str "blue") (cons (str "red") nil))) end))
        end)

abbrev given_vnis : List Value
given_vnis = int (pos 1010) ∷ []

abbrev vni_vars : Vars
vni_vars = update (λ name. unset) "vni" (counter given_vnis 1000 1005)

abbrev no_number : String → Option ℤ
no_number s = none

abbrev assigned_vlans : Fields
assigned_vlans =
    entry "blue" (dict (vlan_with (int (pos 1010))))
      (entry "red" (dict (entry "id" (int (pos 10)) (entry "vni" (int (pos 1000)) end))) end)

abbrev after_vars : Vars
after_vars =
    update (update vni_vars "vni" (counter given_vnis 1000 1005)) "vni"
      (counter (append_new given_vnis (int (pos 1000))) 1000 1005)

vnis_assigned :
    assign_vni no_number 1000 (switch two_vlans) (switch two_vlans) vni_vars
    ≡ some (switch assigned_vlans, after_vars, [])
unfolding assign_vni get has put is_in value_eq get_next_id get_id_set int_status
vnis_assigned = refl

blue_only :
    (a : String) (v : Value) → vni_at two_vlans a ≡ some v → ("blue" ≡ a) × (int (pos 1010) ≡ v)
unfolding get
blue_only a v h = elim (Bool-cases ("blue" == a)) [
  | inl blue ↦ ((eq_iff "blue" a).0 blue, some_inj (rw blue at h))
  | inr other ↦ elim (Bool-cases ("red" == a)) [
    | inl red ↦ absurd (cc (rw (other, red) at h))
    | inr none_such ↦ absurd (cc (rw (other, none_such) at h))
  ]
]

two_vlans-Sound : Sound (vlans_of (switch two_vlans, vni_vars, []))
unfolding get is_in value_eq
two_vlans-Sound = record {
  used = given_vnis;
  next = 1000;
  max = 1005;
  set_up = refl;
  clean = record {
    registered = λ a i h. subst (λ x. is_in x given_vnis ≡ true) (blue_only a (int i) h).1 refl;
    distinct = λ a b i h k. sym (blue_only a (int i) h).0 ∙ (blue_only b (int i) k).0;
    no_text = λ a s h. absurd (cc (blue_only a (str s) h).1);
  };
}

assign_vni_example : Sound (vlans_of (switch assigned_vlans, after_vars, []))
unfolding has get
assign_vni_example =
    assign_vni_no_clash no_number 1000 (switch two_vlans) (switch two_vlans) vni_vars
      (switch assigned_vlans, after_vars, []) refl two_vlans-Sound vnis_assigned

abbrev vlan_numbered : ℕ → Fields
vlan_numbered n = entry "id" (int (pos n)) end

-- A VLAN of the topology, and a node with a VLAN of its own.
abbrev lab : Fields
lab = entry "vlans" (dict (entry "red" (dict (vlan_numbered 5)) end)) (
    entry "nodes"
      (dict (
        entry "s1" (dict (entry "vlans" (dict (entry "blue" (dict (vlan_numbered 6)) end)) end))
          end))
      end)

abbrev lab_lists : Numbered → Option (Fields × Fields)
lab_lists none = none
lab_lists (some (topology, vars, errors)) =
    some (inner_box (get topology "vxlan"), inner_box (get (inner_box (get topology "nodes")) "s1"))

-- Both lists are made: that of the node has its VLAN, with its VNI, and then that of the topology.
post_node_run :
    lab_lists (module_post_node_transform no_number 1000 lab vni_vars)
    ≡ some (
      entry "vlans" (list (cons (str "red") nil)) end,
      entry "vlans"
          (dict
            (entry "blue" (dict (entry "id" (int (pos 6)) (entry "vni" (int (pos 1006)) end))) end))
          (entry "vxlan"
            (dict (entry "vlans" (list (cons (str "blue") (cons (str "red") nil))) end))
            end),
    )
unfolding module_post_node_transform assign_vni get has put is_in value_eq get_next_id get_id_set
    int_status
post_node_run = refl
