-- ===== src/Types/Dotted.antt =====
-- A type test on a key `outer.inner`, which python-box reads as the key `inner` of b.outer.
use netlab.Prelude.{String, none, some, if◌then◌else◌}
use netlab.Data.{dict, Fields, get, has, put, pop}
use netlab.Modules.Attributes.{inner_box}
use netlab.Types.Framework.{TypeTest, Request, Outcome, done, raised, execute_test}

-- The Box with the value under the dotted key, and back.
abbrev flattened : String → String → String → Fields → Fields
flattened dotted outer inner b = elim (get (inner_box (get b outer)) inner) [
  | none ↦ b
  | some v ↦ put b dotted v
]

abbrev unflattened : String → String → String → Fields → Fields
unflattened dotted outer inner b =
    let below = inner_box (get b outer) in
    elim (get b dotted) [
      | none ↦ if has b outer then put b outer (dict (pop below inner)) else b
      | some v ↦ put (pop b dotted) outer (dict (put below inner v))
    ]

abbrev unflattened_outcome : String → String → String → Outcome → Outcome
unflattened_outcome dotted outer inner (raised errors) = raised errors
unflattened_outcome dotted outer inner (done b v errors) =
    done (unflattened dotted outer inner b) v errors

-- `dotted` is the key as it is written, 'outer.inner'.
unfoldable pub execute_dotted : TypeTest → Request → String → String → String → Fields → Outcome
unfolding execute_test get has put pop
execute_dotted t r dotted outer inner b =
    unflattened_outcome dotted outer inner
      (execute_test t r dotted (flattened dotted outer inner b))
