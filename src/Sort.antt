-- ===== src/Sort.antt =====
-- netsim/utils/sort.py: objects in the order of their dependencies.
pub mod Passes
pub mod Order
pub mod Acyclic
use netlab.Prelude.{
  ℕ, zero, suc, String, Bool, true, false, not, Option, none, some, List, [], ◌∷◌, ◌++◌, length,
  ltb, any, keep, if◌then◌else◌,
}
use netlab.Prelude.Texts.{contains}

module _ (get_dependency : String → List String) where
  -- [ r for r in requires if r in mods ] is not empty
  abbrev pub blocked : List String → String → Bool
  blocked mods m = any (λ r. contains r mods) (get_dependency m)

  abbrev pub ready : List String → List String
  ready mods = keep (λ m. not (blocked mods m)) mods

  abbrev pub skipped : List String → List String
  skipped mods = keep (blocked mods) mods

  -- The `while` loop: `watchdog` is the counter before a round, and `none` is the FatalError of a
  -- round that starts with the counter at zero.
  unfoldable pub rounds : ℕ → List String → List String → Option (List String)
  unfolding any keep contains
  rounds watchdog [] output = some output
  rounds zero (m ∷ ms) output = none
  rounds (suc watchdog) (m ∷ ms) output =
      rounds watchdog (skipped (m ∷ ms)) (output ++ ready (m ∷ ms))

  unfoldable pub dependency : List String → Option (List String)
  unfolding rounds
  dependency mods = if ltb (length mods) 2 then some mods else rounds (length mods) mods []
