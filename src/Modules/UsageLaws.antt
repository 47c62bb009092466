-- ===== src/Modules/UsageLaws.antt =====
-- What the checks and adjustments of module lists guarantee
use netlab.Prelude.{
  ℕ, String, ◌≡◌, refl, subst, Bool, true, false, some, List, [], ◌∷◌, ◌++◌, ◌==◌, eq_iff,
  if◌then◌else◌, Bool-cases, inl, inr, keep, get_elem?, some_inj, zero, suc,
}
use netlab.Prelude.Texts.{contains}
use netlab.Log.{Reports, Report, report, incorrect_value, missing_value}
use netlab.Data.{dict, truthy}
use netlab.Modules.Usage.{
  ModNode, ModTopology, modules_of, missing_modules, errors_for, check_nodes, node_errors,
  module_errors, definition_of, requires_of, device_requires, check_each_module,
  check_module_dependencies,
}

append_empty : (xs ys : Reports) → (xs ++ ys) ≡ [] → (xs ≡ []) × (ys ≡ [])
append_empty [] ys h = (refl, h)
append_empty (x ∷ xs) ys h = absurd (cc h)

errors_for-empty : (e : Report) (rs : List String) → errors_for (e ∷ []) rs ≡ [] → rs ≡ []
unfolding errors_for
errors_for-empty e [] h = refl
errors_for-empty e (r ∷ rs) h = absurd (cc h)

missing_modules-empty :
    (requires mods : List String) (r : String)
    → missing_modules requires mods ≡ []
    → contains r requires ≡ true
    → contains r mods ≡ true
unfolding missing_modules keep contains
missing_modules-empty [] mods r e h = absurd (cc h)
missing_modules-empty (q ∷ requires) mods r e h = elim (Bool-cases (contains q mods)) [
  | inr missing ↦ absurd (cc (rw missing at e))
  | inl present ↦ elim (Bool-cases (q == r)) [
    | inl same ↦ subst (λ x. contains x mods ≡ true) ((eq_iff q r).0 same) present
    | inr other ↦ missing_modules-empty requires mods r (rw present at e) (rw other at h)
  ]
]

check_each_module-empty :
    (t : ModTopology) (ms : List String) (m : String)
    → check_each_module t ms ≡ []
    → contains m ms ≡ true
    → module_errors t m ≡ []
unfolding check_each_module contains
check_each_module-empty t [] m e h = absurd (cc h)
check_each_module-empty t (k ∷ ms) m e h =
    let both = append_empty (module_errors t k) (check_each_module t ms) e in
    elim (Bool-cases (k == m)) [
      | inl same ↦ subst (λ x. module_errors t x ≡ []) ((eq_iff k m).0 same) both.0
      | inr other ↦ check_each_module-empty t ms m both.1 (rw other at h)
    ]

check_nodes-empty :
    (m : String) (requires : List String) (ns : List ModNode) (i : ℕ) (n : ModNode)
    → check_nodes m requires ns ≡ []
    → get_elem? ns i ≡ some n
    → node_errors m requires n ≡ []
unfolding check_nodes
check_nodes-empty m requires [] i n e h = absurd (cc h)
check_nodes-empty m requires (k ∷ ns) zero n e h =
    subst (λ x. node_errors m requires x ≡ []) (some_inj h)
      (append_empty (node_errors m requires k) (check_nodes m requires ns) e).0
check_nodes-empty m requires (k ∷ ns) (suc i) n e h =
    check_nodes-empty m requires ns i n
      (append_empty (node_errors m requires k) (check_nodes m requires ns) e).1 h

when_true : (c : Bool) (xs : Reports) → c ≡ true → (if c then xs else []) ≡ [] → xs ≡ []
when_true true xs p q = q
when_true false xs p q = absurd (cc p)

module_errors-halves :
    (t : ModTopology) (m : String)
    → truthy (dict (definition_of t m)) ≡ true
    → module_errors t m ≡ []
    → (errors_for
          (report missing_value "modules" ∷ [])
          (missing_modules (requires_of t m) (modules_of t.modules))
        ≡ [])
      × (check_nodes m (requires_of t m) t.nodes ≡ [])
unfolding module_errors
module_errors-halves t m d e =
    append_empty _ (check_nodes m (requires_of t m) t.nodes) (when_true _ _ d e)

module _ (t : ModTopology) (m : String) where
  -- Where check_module_dependencies reports nothing, a module in use that has settings in the defaults
  -- has all modules that it requires in the topology.
  pub check_module_dependencies_global :
      (r : String)
      → check_module_dependencies t ≡ []
      → contains m (modules_of t.modules) ≡ true
      → truthy (dict (definition_of t m)) ≡ true
      → contains r (requires_of t m) ≡ true
      → contains r (modules_of t.modules) ≡ true
  unfolding check_module_dependencies
  check_module_dependencies_global r e h d q =
      missing_modules-empty (requires_of t m) (modules_of t.modules) r
        (errors_for-empty (report missing_value "modules") _
          (module_errors-halves t m d (check_each_module-empty t (modules_of t.modules) m e h)).0)
        q

  -- Where check_module_dependencies reports nothing, a module in use that has settings in the defaults
  -- has, on every node that uses it, all modules that it requires in general or on the node's device.
  pub check_module_dependencies_node :
      (i : ℕ) (n : ModNode) (r : String)
      → check_module_dependencies t ≡ []
      → contains m (modules_of t.modules) ≡ true
      → truthy (dict (definition_of t m)) ≡ true
      → get_elem? t.nodes i ≡ some n
      → contains m (modules_of n.modules) ≡ true
      → contains r (requires_of t m ++ device_requires n.features m) ≡ true
      → contains r (modules_of n.modules) ≡ true
  unfolding check_module_dependencies node_errors
  check_module_dependencies_node i n r e h d at_i uses q =
      missing_modules-empty (requires_of t m ++ device_requires n.features m) (modules_of n.modules)
        r
        (errors_for-empty (report incorrect_value "modules") _ (
          when_true _ _ uses (
            check_nodes-empty m (requires_of t m) t.nodes i n
              (module_errors-halves t m d
                (check_each_module-empty t (modules_of t.modules) m e h)).1
              at_i)))
        q
