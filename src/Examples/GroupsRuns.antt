-- ===== src/Examples/GroupsRuns.antt =====
-- A hierarchy of two groups over two nodes.
use netlab.Log.{Reports}
use netlab.Prelude.{
  Bool, Option, ◌||◌, keep, Bool-cases, inl, inr, subst, sym, ◌∙◌, ℕ, ◌<◌, ◌≡◌, ◌↔◌, refl, String,
  true, false, List, [], ◌∷◌, none, some, arith, ◌==◌, if◌then◌else◌, eq_iff,
}
use netlab.Prelude.Texts.{contains, one_of}
use netlab.Groups.{Group, Node, Topology}
use netlab.Groups.Members.{group_members}
use netlab.Groups.Copying.{copy_group_device_module}
use netlab.Groups.CopyLaws.{device_at, copy_group_device_module_device}
use netlab.Groups.Expansion.{expand_group_members}
use netlab.Groups.ExpansionLaws.{expand_group_members_known}
use netlab.Data.{str}
use netlab.Groups.Cycles.{children, check_recursive_groups}
use netlab.Groups.CycleFree.{
  contains-names, Trail, check_recursive_groups_acyclic, check_recursive_groups_total,
}
use netlab.Groups.Topsort.{reverse_topsort, user_groups}
use netlab.Groups.ChildrenFirst.{reverse_topsort-children_first}
use netlab.Groups.Reachability.{Member, group_members_exact, group_members_total}
use netlab.Sort.Order.{NoneLater}

abbrev node_group : List String → Group
node_group ms = record {
  kind = "node";
  members = some ms;
  device = none;
  modules = none;
  config = none;
  auto_create = false;
  default_group = false;
}

abbrev plain_node : Node
plain_node = record { device = some "frr"; modules = none; config = none; groups = none }

abbrev lab : Topology
lab = record {
  groups = ("pe", node_group ("r1" ∷ [])) ∷ ("core", node_group ("pe" ∷ "r2" ∷ [])) ∷ [];
  nodes = ("r1", plain_node) ∷ ("r2", plain_node) ∷ [];
  vlans = [];
  vrfs = [];
  devices = "frr" ∷ [];
  default_groups = [];
}

core_members : (group_members lab "core" "node").0 ≡ some ("r1" ∷ "r2" ∷ [])
unfolding group_members
core_members = refl

device_members :
    (group_members (record lab { groups = ("frr", node_group []) ∷ [] }) "frr" "node").0
    ≡ some ("r1" ∷ "r2" ∷ [])
unfolding group_members
device_members = refl

no_cycle : check_recursive_groups lab ≡ some []
unfolding check_recursive_groups
no_cycle = refl

children_first : reverse_topsort lab ≡ some ("pe" ∷ "core" ∷ [])
unfolding reverse_topsort
children_first = refl

acyclic_example : Trail lab "core" "core" → ⊥
acyclic_example = check_recursive_groups_acyclic lab "core" no_cycle refl refl

group_members_exact_example :
    (contains "r1" ("r1" ∷ "r2" ∷ []) ≡ true) ↔ Member lab "node" "r1" "core"
group_members_exact_example =
    group_members_exact lab "node" "core" "r1" ("r1" ∷ "r2" ∷ []) core_members

abbrev rank : String → ℕ
rank g = if g == "core" then 1 else 0

edge :
    (g m : String)
    → contains m (children lab g) ≡ true
    → contains m ("pe" ∷ "core" ∷ []) ≡ true
    → rank m < rank g
unfolding contains children
edge g m c k = elim (Bool-cases ("pe" == g)) [
  | inl pe ↦ elim (one_of m "r1" [] (rw pe at c)) [
    | inl p ↦ absurd (cc (subst (λ x. contains x ("pe" ∷ "core" ∷ []) ≡ true) (sym p) k))
    | inr nothing ↦ absurd (cc nothing)
  ]
  | inr not_pe ↦ elim (Bool-cases ("core" == g)) [
    | inr other ↦ absurd (cc (rw (not_pe, other) at c))
    | inl core ↦ elim (one_of m "pe" ("r2" ∷ []) (rw (not_pe, core) at c)) [
      | inl p ↦
          subst (λ x. rank x < rank g) p
            (subst (λ y. rank "pe" < rank y) ((eq_iff "core" g).0 core) (omega arith))
      | inr rest ↦ elim (one_of m "r2" [] rest) [
        | inl p ↦ absurd (cc (subst (λ x. contains x ("pe" ∷ "core" ∷ []) ≡ true) (sym p) k))
        | inr nothing ↦ absurd (cc nothing)
      ]
    ]
  ]
]

group_members_total_example :
    (xs : List String) × ((group_members lab "core" "node").0 ≡ some xs)
    × ((s : String) → (contains s xs ≡ true) ↔ Member lab "node" s "core")
group_members_total_example =
    group_members_total lab "node" rank (λ g m c k. edge g m c (contains-names m lab.groups ∙ k))
      "core" (omega arith)

reverse_topsort_example :
    (list : List String) × (reverse_topsort lab ≡ some list)
    × NoneLater (children lab) list []
    × ((s : String) → contains s list ≡ contains s (user_groups lab))
unfolding contains keep
reverse_topsort_example =
    reverse_topsort-children_first lab rank (refl, (refl, tt)) (λ m r a b c. edge m r c b)

check_recursive_groups_total_example : (r : Reports) × (check_recursive_groups lab ≡ some r)
check_recursive_groups_total_example = check_recursive_groups_total lab

-- r1 has a device; the group's device goes to r2 only.
abbrev bare_node : Node
bare_node = record { device = none; modules = none; config = none; groups = none }

abbrev with_device : String → Topology
with_device d = record lab {
  groups = ("core", record (node_group ("r1" ∷ "r2" ∷ [])) { device = some "eos" }) ∷ [];
  nodes =
      ("r1", plain_node)
      ∷ ("r2", if d == "" then bare_node else record bare_node { device = some d })
      ∷ [];
}

device_copied : copy_group_device_module (with_device "") ≡ some (with_device "eos", [])
unfolding copy_group_device_module
device_copied = refl

device_kept_example : device_at (with_device "eos").nodes "r1" ≡ some "frr"
device_kept_example =
    copy_group_device_module_device (with_device "") (with_device "eos") [] "r1" "frr" refl
      device_copied

abbrev no_regex : String → Option (String → Bool)
no_regex s = none

abbrev all_match : String → String → Bool
all_match pattern s = true

expansion_known_example : (contains "r2" ("r1" ∷ "r2" ∷ []) || contains "r2" ("pe" ∷ [])) ≡ true
unfolding contains expand_group_members
expansion_known_example =
    expand_group_members_known no_regex all_match (str "r*" ∷ []) ("r1" ∷ "r2" ∷ []) ("pe" ∷ [])
      false "r2" refl
