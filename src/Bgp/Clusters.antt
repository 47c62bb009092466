-- ===== src/Bgp/Clusters.antt =====
-- build_bgp_rr_clusters and check_confederation_data
use netlab.Prelude.{
  String, Bool, not, ◌&&◌, Option, none, some, List, [], ◌∷◌, ◌++◌, ◌==◌, is_some, keep,
  if◌then◌else◌,
}
use netlab.Prelude.Texts.{text_le}
use netlab.Log.{report, missing_value, incorrect_value, incorrect_type, Reports}
use netlab.Data.{Value, str, list, dict, get, put, value_eq, truthy, is_in, items}
use netlab.Bgp.Nodes.{BgpNode, bgp_attr, bgp_as, find_bgp_rr, is_rr}
use netlab.Bgp.Peers.{box_of, set_bgp}

abbrev text_or_empty : Option Value → String
text_or_empty (some (str s)) = s
text_or_empty _ = ""

abbrev pub router_id : BgpNode → String
router_id n = text_or_empty (bgp_attr n "router_id")

abbrev pub has_cluster : BgpNode → Bool
has_cluster n = is_some (bgp_attr n "rr_cluster_id")

unfoldable pub rr_cluster_candidates : List BgpNode → List String
unfolding get
rr_cluster_candidates [] = []
rr_cluster_candidates (n ∷ ns) =
    let rest = rr_cluster_candidates ns in if has_cluster n then rest else router_id n ∷ rest

abbrev smaller : String → String → String
smaller s t = if text_le s t then s else t

-- min(xs), and "" where there is none
unfoldable pub least_text : List String → String
unfolding text_le
least_text [] = ""
least_text (x ∷ []) = x
least_text (x ∷ y ∷ xs) = smaller x (least_text (y ∷ xs))

abbrev pub reflects : Value → BgpNode → Bool
reflects asn n = (is_some n.bgp && value_eq (bgp_as n) asn) && is_rr n

-- rr_cluster_id or n.bgp.router_id
abbrev pub cluster_or_own : String → BgpNode → String
cluster_or_own rr_cluster_id n = if rr_cluster_id == "" then router_id n else rr_cluster_id

abbrev pub with_cluster : Value → String → BgpNode → BgpNode
with_cluster asn rr_cluster_id n =
    if reflects asn n && not (has_cluster n)
    then set_bgp n "rr_cluster_id" (str (cluster_or_own rr_cluster_id n))
    else n

unfoldable pub with_clusters : Value → String → List BgpNode → List BgpNode
unfolding get put value_eq truthy
with_clusters asn rr_cluster_id [] = []
with_clusters asn rr_cluster_id (n ∷ ns) =
    with_cluster asn rr_cluster_id n ∷ with_clusters asn rr_cluster_id ns

unfoldable pub cluster_in : Value → List BgpNode → List BgpNode
unfolding with_clusters least_text rr_cluster_candidates find_bgp_rr
cluster_in asn nodes =
    with_clusters asn (least_text (rr_cluster_candidates (find_bgp_rr asn nodes))) nodes

unfoldable pub as_list : List BgpNode → List Value
unfolding is_in get
as_list [] = []
as_list (n ∷ ns) =
    let rest = as_list ns in
    elim (bgp_attr n "as") [ none ↦ rest | some v ↦ if is_in v rest then rest else v ∷ rest ]

unfoldable pub cluster_each : List Value → List BgpNode → List BgpNode
unfolding cluster_in
cluster_each [] nodes = nodes
cluster_each (asn ∷ asns) nodes = cluster_each asns (cluster_in asn nodes)

unfoldable pub build_bgp_rr_clusters : List BgpNode → List BgpNode
unfolding cluster_each as_list
build_bgp_rr_clusters nodes = cluster_each (as_list nodes) nodes

-- A map with values as keys: the first entry counts.
unfoldable pub value_at : Value → List (Value × Value) → Option Value
unfolding value_eq
value_at k [] = none
value_at k ((j, v) ∷ m) = if value_eq j k then some v else value_at k m

unfoldable pub members_of : Value → List (Value × List Value) → Option (List Value)
unfolding value_eq
members_of k [] = none
members_of k ((j, v) ∷ m) = if value_eq j k then some v else members_of k m

abbrev when_so : Bool → Reports
when_so b = if b then report incorrect_value "bgp" ∷ [] else []

-- The members of one confederation AS; a later confederation takes a member over.
unfoldable pub map_members :
    List (Value × List Value)
    → Value
    → List Value
    → List (Value × Value)
    → List (Value × Value) × Reports
unfolding value_at members_of
map_members bgp_confed c_asn [] rev_map = (rev_map, [])
map_members bgp_confed c_asn (m ∷ ms) rev_map =
    let (rev_map', more) = map_members bgp_confed c_asn ms ((m, c_asn) ∷ rev_map) in
    (
      rev_map',
      when_so (is_some (value_at m rev_map))
          ++ (when_so (is_some (members_of m bgp_confed)) ++ more),
    )

abbrev empty_confed : List Value → Reports
empty_confed [] = report missing_value "bgp" ∷ []
empty_confed (m ∷ ms) = []

unfoldable pub map_confed :
    List (Value × List Value)
    → List (Value × List Value)
    → List (Value × Value)
    → List (Value × Value) × Reports
unfolding map_members
map_confed bgp_confed [] rev_map = (rev_map, [])
map_confed bgp_confed ((c_asn, members) ∷ rest) rev_map =
    let (rev_map', errors) = map_members bgp_confed c_asn members rev_map in
    let (rev_map'', more) = map_confed bgp_confed rest rev_map' in
    (rev_map'', empty_confed members ++ (errors ++ more))

abbrev or_none : Option (List Value) → List Value
or_none none = []
or_none (some l) = l

abbrev pub with_confed : List (Value × List Value) → BgpNode → Value → Value → BgpNode
with_confed bgp_confed n n_as c_as = set_bgp n "confederation" (
    dict (
      put (put (box_of (bgp_attr n "confederation")) "as" c_as) "peers"
        (list (items (keep (λ a. not (value_eq a n_as)) (or_none (members_of c_as bgp_confed)))))))

-- Does the node's device support confederations?
module _ (confederation : BgpNode → Bool) where
  abbrev confed_of : List (Value × List Value) → BgpNode → Value → Option Value → BgpNode × Reports
  confed_of bgp_confed n n_as none = (n, [])
  confed_of bgp_confed n n_as (some c_as) =
      if confederation n
      then (with_confed bgp_confed n n_as c_as, [])
      else (n, report incorrect_type "bgp" ∷ [])

  abbrev pub check_as :
      List (Value × List Value) → List (Value × Value) → BgpNode → Option Value → BgpNode × Reports
  check_as bgp_confed rev_map n none = (n, [])
  check_as bgp_confed rev_map n (some n_as) =
      let (n', errors) = confed_of bgp_confed n n_as (value_at n_as rev_map) in
      (n', when_so (is_some (members_of n_as bgp_confed)) ++ errors)

  unfoldable pub check_each_node :
      List (Value × List Value) → List (Value × Value) → List BgpNode → List BgpNode × Reports
  unfolding value_at members_of get put items keep value_eq
  check_each_node bgp_confed rev_map [] = ([], [])
  check_each_node bgp_confed rev_map (n ∷ ns) =
      let (n', errors) = check_as bgp_confed rev_map n (bgp_attr n "as") in
      let (ns', more) = check_each_node bgp_confed rev_map ns in (n' ∷ ns', errors ++ more)

  unfoldable pub check_confederation_data :
      Option (List (Value × List Value)) → List BgpNode → List BgpNode × Reports
  unfolding map_confed check_each_node
  check_confederation_data none nodes = (nodes, [])
  check_confederation_data (some bgp_confed) nodes =
      let (rev_map, errors) = map_confed bgp_confed bgp_confed [] in
      let (nodes', more) = check_each_node bgp_confed rev_map nodes in (nodes', errors ++ more)
