-- ===== src/Groups/Templates.antt =====
-- node_config_templates: the configuration templates of groups and nodes
use Prim.Native.Char.{code}
use netlab.Prelude.{
  String, Bool, true, false, not, ◌&&◌, ◌||◌, Option, none, some, List, [], ◌∷◌, ◌++◌, ◌==◌, eqb,
  keep, if◌then◌else◌,
}
use netlab.Prelude.Texts.{contains}
use netlab.Groups.Defs.{Group, Node, Topology, find, is_setting}
use netlab.Groups.Members.{group_members, list_or_empty}
use netlab.Groups.Topsort.{reverse_topsort}

abbrev has_none : List String → Bool
has_none [] = true
has_none (m ∷ ms) = false

unfoldable pub prepend_config :
    List String → List String → Bool → List (String × Node) → List (String × Node)
unfolding contains
prepend_config config g_members all [] = []
prepend_config config g_members all ((name, n) ∷ nodes) =
    (
      name,
      (if contains name g_members || all
          then record n { config = some (config ++ list_or_empty n.config) }
          else n),
    )
    ∷ prepend_config config g_members all nodes

abbrev with_config : String → List String → Option (List String) → Topology → Option Topology
with_config g config none t = none
with_config g config (some ms) t =
    if has_none ms && not (g == "all")
    then some t
    else some (record t { nodes = prepend_config config ms (g == "all") t.nodes })

abbrev group_config : Option Group → Option (List String)
group_config none = none
group_config (some g) = g.config

-- Phase 1: from more specific to less specific groups
unfoldable pub merge_templates : List String → Topology → Option Topology
unfolding prepend_config group_members
merge_templates [] t = some t
merge_templates (g ∷ gs) t = elim (group_config (find g t.groups)) [
  | none ↦ merge_templates gs t
  | some config ↦ elim (with_config g config (group_members t g "node").0 t) [
    | none ↦ none
    | some t' ↦ merge_templates gs t'
  ]
]

unfoldable pub pop_group_config : List (String × Group) → List (String × Group)
pop_group_config [] = []
pop_group_config ((g, d) ∷ groups) =
    (g, (if is_setting g then d else record d { config = none })) ∷ pop_group_config groups

-- c[0] == '-', and c[1:]; `none` is the IndexError of an empty text
abbrev pub removal : String → Option (Option String)
removal String.[] = none
removal (String.◌∷◌ c s) = if eqb (code c) b'-' then some (some s) else some none

-- One round over node.config: "-" removes all prior templates, "-t" removes t.
unfoldable pub template_step : List String → String → Option (List String)
unfolding keep
template_step config_list c = if c == "-" then some [] else (elim (removal c) [
  | none ↦ none
  | some (some t) ↦ some (keep (λ x. not (x == t)) config_list)
  | some none ↦ some (config_list ++ (c ∷ []))
])

unfoldable pub process_templates : List String → List String → Option (List String)
unfolding template_step
process_templates config_list [] = some config_list
process_templates config_list (c ∷ cs) = elim (template_step config_list c) [
  | none ↦ none
  | some l ↦ process_templates l cs
]

abbrev templates_or_none : List String → Option (List String)
templates_or_none [] = none
templates_or_none (c ∷ cs) = some (c ∷ cs)

abbrev cleaned : Node → Option Node
cleaned n = elim n.config [
  | none ↦ some n
  | some cs ↦ elim (process_templates [] cs) [
    | none ↦ none
    | some l ↦ some (record n { config = templates_or_none l })
  ]
]

-- Phase 2: the cleanup
unfoldable pub clean_nodes : List (String × Node) → Option (List (String × Node))
unfolding process_templates
clean_nodes [] = some []
clean_nodes ((name, n) ∷ nodes) =
    let rest = clean_nodes nodes in
    elim (cleaned n) [
      | none ↦ none
      | some n' ↦ elim rest [ none ↦ none | some ns ↦ some ((name, n') ∷ ns) ]
    ]

unfoldable pub node_config_templates : Topology → Option Topology
unfolding merge_templates pop_group_config clean_nodes reverse_topsort
node_config_templates t = elim (reverse_topsort t) [
  | none ↦ none
  | some gs ↦ elim (merge_templates gs t) [
    | none ↦ none
    | some t' ↦ elim (clean_nodes t'.nodes) [
      | none ↦ none
      | some ns ↦ some (record t' { nodes = ns; groups = pop_group_config t'.groups })
    ]
  ]
]
