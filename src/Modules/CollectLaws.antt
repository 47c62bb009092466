-- ===== src/Modules/CollectLaws.antt =====
-- adjust_global_modules: the modules that a topology has after it
use netlab.Prelude.{
  String, ◌≡◌, refl, ap, subst, ◌∙◌, Bool, true, false, not, ◌||◌, some, List, [], ◌∷◌, ◌++◌, arith,
  sym, any, ◌&&◌, eq_iff, if◌then◌else◌, Bool-cases, inl, inr, map, Option, none,
}
use netlab.Prelude.Texts.{contains, contains-append, sorted, contains-sorted}
use netlab.Prelude.Distinct.{IsDistinct, IsDistinct-sorted}
use netlab.Log.{Reports}
use netlab.Modules.Attributes.{inner_box, text_list, texts}
use netlab.Data.{
  Value, null, Items, str, list, Fields, get, has, put, pop, elems, items, get-put, get-pop,
}
use netlab.Types.Framework.{
  Outcome, done, raised, with_valid_values, no_values, check_valid_values, execute_test,
  get_value_to_check, post_validation,
}
use netlab.Types.Scalars.{must_be_list, list_status}
use netlab.Modules.Usage.{ModNode, modules_of}
use netlab.Modules.Collect.{
  once_each, node_modules, adjust_global_modules, with_modules, module_request, module_names,
  adjusted, after_check, module_list, list_of_modules,
}

contains-once_each : (ms : List String) (m : String) → contains m (once_each ms) ≡ contains m ms
unfolding once_each contains
contains-once_each [] m = refl
contains-once_each (k ∷ ms) m = ground (arith, contains-once_each ms m, eq_iff k m)

IsDistinct-once_each : (ms : List String) → IsDistinct (once_each ms)
unfolding once_each
IsDistinct-once_each [] = tt
IsDistinct-once_each (k ∷ ms) = elim (Bool-cases (contains k (once_each ms))) [
  | inl old ↦ rw old (IsDistinct-once_each ms)
  | inr new ↦ rw new (new, IsDistinct-once_each ms)
]

-- The test of the list of modules leaves the topology as it is, where it is a list.
abbrev Leaves : Fields → Outcome → Type 0
Leaves b (raised errors) = Unit
Leaves b (done parent v errors) = parent ≡ b

Leaves-with_valid_values :
    (known : List String) (b : Fields) (v : Value) (o : Option Bool)
    → Leaves b (with_valid_values (module_request known) b v [] o)
Leaves-with_valid_values known b v none = tt
Leaves-with_valid_values known b v (some false) = refl
Leaves-with_valid_values known b v (some true) = refl

Leaves-if :
    (c : Bool) (b : Fields) (x y : Outcome)
    → Leaves b x
    → Leaves b y
    → Leaves b (if c then x else y)
Leaves-if true b x y u v = u
Leaves-if false b x y u v = v

execute_test-Leaves :
    (known : List String) (b : Fields) (xs : Items)
    → get b "module" ≡ some (list xs)
    → Leaves b (execute_test (must_be_list none module_list) (module_request known) "module" b)
unfolding execute_test get_value_to_check post_validation list_status
execute_test-Leaves known b xs h = rw h (
    Leaves-if (not (has b "module")) b (done b (list xs) []) _ refl (
      Leaves-if (not (no_values (map str (sorted known))) && true) b
        (with_valid_values (module_request known) b (list xs) []
          (check_valid_values (module_request known) (list xs)))
        (done b (list xs) [])
        (Leaves-with_valid_values known b (list xs)
          (check_valid_values (module_request known) (list xs)))
        refl))

texts-map : (ms : List String) → texts (elems (items (map str ms))) ≡ ms
unfolding texts elems items
texts-map [] = refl
texts-map (m ∷ ms) = ap (λ l. m ∷ l) (texts-map ms)

contains-node_modules :
    (nodes : List ModNode) (m : String)
    → contains m (node_modules nodes) ≡ any (λ n. contains m (modules_of n.modules)) nodes
unfolding node_modules any contains
contains-node_modules [] m = refl
contains-node_modules (n ∷ ns) m =
    contains-append m (modules_of n.modules) (node_modules ns)
    ∙ ap (λ b. contains m (modules_of n.modules) || b) (contains-node_modules ns m)

-- The modules that a topology names.
abbrev pub named : Fields → List String
named topology = text_list (get topology "module")

named-with_modules :
    (topology : Fields) (names : List String) (m : String)
    → IsDistinct (named (with_modules topology names))
      × (contains m (named (with_modules topology names)) ≡ contains m names)
named-with_modules topology [] m =
    let gone : named (pop topology "module") ≡ [] =
      ap text_list (get-pop topology "module" "module") in
    (subst IsDistinct (sym gone) tt, ap (contains m) gone)
named-with_modules topology (n ∷ ns) m =
    let ms = sorted (once_each (n ∷ ns)) in
    let stored : named (put topology "module" (list (items (map str ms)))) ≡ ms =
      ap text_list (get-put topology "module" "module" (list (items (map str ms))))
      ∙ texts-map ms in
    (
      subst IsDistinct (sym stored)
          (IsDistinct-sorted (once_each (n ∷ ns)) (IsDistinct-once_each (n ∷ ns))),
      ap (contains m) stored
          ∙ contains-sorted m (once_each (n ∷ ns))
          ∙ contains-once_each (n ∷ ns) m,
    )

-- The result has each module once, and exactly the modules of the list and of the nodes.
abbrev Collected : Items → List ModNode → String → Option (Fields × Reports) → Type 0
Collected xs nodes m none = Unit
Collected xs nodes m (some (topology, errors)) =
    IsDistinct (named topology)
    × (contains m (named topology)
        ≡ (contains m (texts (elems xs)) || any (λ n. contains m (modules_of n.modules)) nodes))

Collected-after_check :
    (xs : Items) (nodes : List ModNode) (m : String) (topology : Fields) (o : Outcome)
    → get topology "module" ≡ some (list xs)
    → Leaves topology o
    → Collected xs nodes m (after_check nodes o)
Collected-after_check xs nodes m topology (raised errors) h l = tt
Collected-after_check xs nodes m topology (done parent v errors) h l =
    let names = texts (elems xs) ++ node_modules nodes in
    let (once, same) = named-with_modules parent names m in
    subst (λ o. Collected xs nodes m (adjusted nodes parent errors (module_names o)))
      (sym (ap (λ b. get b "module") l ∙ h))
      (
        once,
        same
            ∙ contains-append m (texts (elems xs)) (node_modules nodes)
            ∙ ap (λ b. contains m (texts (elems xs)) || b) (contains-node_modules nodes m),
      )

-- Where the topology has a list of modules and adjust_global_modules raises no exception, the topology
-- names each module once after it, and names a module exactly when its list named it or one of the nodes
-- uses it.
pub adjust_global_modules_set :
    (topology after : Fields) (nodes : List ModNode) (errors : Reports) (xs : Items) (m : String)
    → get topology "module" ≡ some (list xs)
    → adjust_global_modules topology nodes ≡ some (after, errors)
    → IsDistinct (named after)
      × (contains m (named after)
          ≡ (contains m (texts (elems xs)) || any (λ n. contains m (modules_of n.modules)) nodes))
unfolding adjust_global_modules
adjust_global_modules_set topology after nodes errors xs m h e =
    let known = list_of_modules (inner_box (get topology "defaults")) in
    subst (Collected xs nodes m) e (
      Collected-after_check xs nodes m topology
        (if has topology "module"
          then execute_test (must_be_list none module_list) (module_request known) "module" topology
          else done topology null [])
        h
        (Leaves-if (has topology "module") topology
          (execute_test (must_be_list none module_list) (module_request known) "module" topology)
          (done topology null []) (execute_test-Leaves known topology xs h) refl))
