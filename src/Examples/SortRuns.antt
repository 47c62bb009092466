-- ===== src/Examples/SortRuns.antt =====
-- Modules in the order of their dependencies.
use mathlib.Core.List.{Perm}
use netlab.Prelude.{
  ◌<◌, Bool-cases, inl, inr, subst, sym, ℕ, ◌≡◌, refl, String, List, [], ◌∷◌, some, none, arith,
  ◌==◌, if◌then◌else◌, eq_iff,
}
use netlab.Prelude.Texts.{contains, one_of}
use netlab.Sort.{dependency}
use netlab.Sort.Passes.{dependency-perm}
use netlab.Sort.Order.{NoneLater, dependency-NoneLater}
use netlab.Sort.Acyclic.{Ranked, dependency_total}

abbrev requires : String → List String
requires m = if m == "vxlan" then "vlan" ∷ [] else if m == "evpn" then "bgp" ∷ "vxlan" ∷ [] else []

abbrev modules : List String
modules = "evpn" ∷ "vxlan" ∷ "bgp" ∷ "vlan" ∷ []

abbrev ordered : List String
ordered = "bgp" ∷ "vlan" ∷ "vxlan" ∷ "evpn" ∷ []

modules_sorted : dependency requires modules ≡ some ordered
unfolding dependency
modules_sorted = refl

sort_loop : dependency (λ m. if m == "a" then "b" ∷ [] else "a" ∷ []) ("a" ∷ "b" ∷ []) ≡ none
unfolding dependency
sort_loop = refl

dependency-perm_example : Perm modules ordered
dependency-perm_example = dependency-perm requires modules ordered modules_sorted

dependency-NoneLater_example : NoneLater requires ordered []
dependency-NoneLater_example =
    dependency-NoneLater requires modules ordered (omega arith) modules_sorted

abbrev rank : String → ℕ
rank m = if m == "evpn" then 1 else 0

abbrev needs_bgp : String → List String
needs_bgp m = if m == "evpn" then "bgp" ∷ [] else []

Ranked_example : Ranked needs_bgp rank ("evpn" ∷ "bgp" ∷ [])
unfolding contains
Ranked_example m r a b c = elim (Bool-cases (m == "evpn")) [
  | inl same ↦ elim (one_of r "bgp" [] (rw same at c)) [
    | inl p ↦
        subst (λ x. rank x < rank m) p
          (subst (λ y. rank "bgp" < rank y) (sym ((eq_iff m "evpn").0 same)) (omega arith))
    | inr none_left ↦ absurd (cc none_left)
  ]
  | inr other ↦ absurd (cc (rw other at c))
]

dependency_total_example :
    (out : List String) × (dependency needs_bgp ("evpn" ∷ "bgp" ∷ []) ≡ some out)
dependency_total_example = dependency_total needs_bgp rank ("evpn" ∷ "bgp" ∷ []) Ranked_example
