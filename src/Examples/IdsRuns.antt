-- ===== src/Examples/IdsRuns.antt =====
-- The identifier sets of netsim/modules/_dataplane.py.
use netlab.Prelude.{ℕ, ◌≡◌, refl, List, [], ◌∷◌, some, arith}
use netlab.Data.{Value, pos, int, is_in, value_eq}
use netlab.Data.Appending.{append_new}
use netlab.Ids.{Vars, unset, update, get_next_id}
use netlab.Ids.Counter.{Least}
use netlab.Ids.Drawing.{
  counter, draw, get_next_id-Least, get_next_id_available, draw_fresh, Rising, AllUnused,
}

abbrev static_ids : List Value
static_ids = int (pos 1001) ∷ int (pos 1003) ∷ []

abbrev vni_vars : Vars
vni_vars = update (λ _. unset) "vni" (counter static_ids 1001 1004)

abbrev vni_vars' : Vars
vni_vars' = update vni_vars "vni" (counter (append_new static_ids (int (pos 1002))) 1002 1004)

first_vni : get_next_id "vni" vni_vars ≡ some (1002, vni_vars')
unfolding get_next_id value_eq
first_vni = refl

get_next_id-Least_example :
    Least static_ids 1001 1004 1002
    × (vni_vars'
        ≡ update vni_vars "vni" (counter (append_new static_ids (int (pos 1002))) 1002 1004))
get_next_id-Least_example =
    get_next_id-Least "vni" vni_vars static_ids 1001 1004 1002 vni_vars' refl first_vni

get_next_id_available_example :
    (i : ℕ) × (vars' : Vars) × (get_next_id "vni" vni_vars ≡ some (i, vars'))
unfolding is_in value_eq
get_next_id_available_example =
    get_next_id_available "vni" vni_vars static_ids 1001 1004 1004 refl refl (omega arith)
      (omega arith)

two_vnis :
    draw 2 "vni" vni_vars
    ≡ some (
      1002 ∷ 1004 ∷ [],
      update vni_vars' "vni" (
          counter (append_new (append_new static_ids (int (pos 1002))) (int (pos 1004))) 1004 1004),
    )
unfolding draw get_next_id value_eq
two_vnis = refl

draw_fresh_example : Rising 1001 (1002 ∷ 1004 ∷ []) × AllUnused static_ids (1002 ∷ 1004 ∷ [])
draw_fresh_example =
    draw_fresh 2 "vni" vni_vars static_ids 1001 1004 (1002 ∷ 1004 ∷ []) _ refl two_vnis
