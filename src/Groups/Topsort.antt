-- ===== src/Groups/Topsort.antt =====
-- reverse_topsort
use netlab.Prelude.{
  ℕ, zero, suc, String, true, false, not, Option, none, some, List, [], ◌∷◌, ◌++◌, length, any,
  keep,
}
use netlab.Prelude.Texts.{contains, sorted}
use netlab.Prelude.Distinct.{without}
use netlab.Groups.Defs.{Topology, names, is_setting}
use netlab.Groups.Cycles.{children}

-- group_copy.pop(g) leaves the keys without g.
-- The `for` loop of one round: the groups that remain and the sorted list. `none` is a KeyError.
unfoldable pub sort_round :
    Topology → List String → List String → List String → Option (List String × List String)
unfolding any contains children without
sort_round t [] remaining sort_list = some (remaining, sort_list)
sort_round t (g ∷ gs) remaining sort_list = elim (any (λ m. contains m remaining) (children t g)) [
  | true ↦ sort_round t gs remaining sort_list
  | false ↦ elim (contains g remaining) [
    | true ↦ sort_round t gs (without g remaining) (sort_list ++ (g ∷ []))
    | false ↦ none
  ]
]

-- The `while` loop with the rounds that are left; `none` stands for a loop that goes on.
unfoldable pub sort_rounds : ℕ → Topology → List String → List String → Option (List String)
unfolding sort_round sorted
sort_rounds fuel t [] sort_list = some sort_list
sort_rounds zero t (g ∷ gs) sort_list = none
sort_rounds (suc fuel) t (g ∷ gs) sort_list =
    elim (sort_round t (sorted (g ∷ gs)) (g ∷ gs) sort_list) [
      | none ↦ none
      | some (remaining, sort_list') ↦ sort_rounds fuel t remaining sort_list'
    ]

abbrev pub user_groups : Topology → List String
user_groups t = keep (λ g. not (is_setting g)) (names t.groups)

unfoldable pub reverse_topsort : Topology → Option (List String)
unfolding sort_rounds keep
reverse_topsort t = sort_rounds (length (user_groups t)) t (user_groups t) []
