-- ===== src/Groups/ChildrenFirst.antt =====
-- reverse_topsort puts child groups before their parents, and ends if the groups form no cycle.
use netlab.Prelude.{
  ℕ, zero, suc, ◌+◌, ◌≤◌, ◌≡◌, refl, sym, ap, ◌∙◌, String, Bool, true, false, not, ◌||◌, some, List,
  [], ◌∷◌, ◌++◌, inl, inr, arith, eq_iff, eq_refl, Bool-cases, length, any,
}
use netlab.Prelude.Texts.{contains, contains-append, sorted, contains-sorted, any_none}
use netlab.Prelude.Distinct.{
  IsDistinct, Within, without, length-without-lt, contains-without, Within-without,
  IsDistinct-without, Within-contains, IsDistinct-keep, IsDistinct-sorted,
}
use netlab.Sort.Order.{Includes, any-Includes, NoneLater, NoneLater-append}
use netlab.Sort.Acyclic.{Ranked, no_deadlock}
use netlab.Groups.Defs.{Topology, names, is_setting}
use netlab.Groups.Cycles.{children}
use netlab.Groups.Topsort.{sort_round, sort_rounds, user_groups, reverse_topsort}

abbrev one_if : Bool → ℕ
one_if true = 1
one_if false = 0

module _ (t : Topology) where
  abbrev waits : List String → String → Bool
  waits remaining g = any (λ m. contains m remaining) (children t g)

  -- What a round leaves, from the groups that it visits.
  record Round (gs remaining sort_list rest list : List String) : Type 0 where
    less : length rest + one_if (any (λ g. not (waits remaining g)) gs) ≤ length remaining
    inside : Includes rest remaining
    distinct : IsDistinct remaining → IsDistinct rest
    kept :
        (s : String)
        → (contains s rest || contains s list) ≡ (contains s remaining || contains s sort_list)
    ordered : NoneLater (children t) sort_list remaining → NoneLater (children t) list rest

  abbrev RoundResult : List String → List String → List String → Type 0
  RoundResult gs remaining sort_list =
      (rest : List String) × (list : List String) × (sort_round t gs remaining sort_list
        ≡ some (rest, list))
      × Round gs remaining sort_list rest list

  take_ordered :
      (g : String) (remaining sort_list : List String)
      → waits remaining g ≡ false
      → contains g remaining ≡ true
      → NoneLater (children t) sort_list remaining
      → NoneLater (children t) (sort_list ++ (g ∷ [])) (without g remaining)
  unfolding contains
  take_ordered g remaining sort_list free here n =
      let inside : Includes ((g ∷ []) ++ without g remaining) remaining =
        λ r c. ground (arith, c, here, contains-without g r remaining, eq_iff g r) in
      NoneLater-append (children t) sort_list (g ∷ []) (without g remaining) remaining inside n
        (any-Includes ((g ∷ []) ++ without g remaining) remaining (children t g) inside free, tt)

  take_kept :
      (g : String) (remaining sort_list : List String) (s : String)
      → contains g remaining ≡ true
      → (contains s (without g remaining) || contains s (sort_list ++ (g ∷ [])))
        ≡ (contains s remaining || contains s sort_list)
  unfolding contains
  take_kept g remaining sort_list s here =
      ground
        (arith, contains-without g s remaining, contains-append s sort_list (g ∷ []), eq_iff g s)

  round_result :
      (gs remaining sort_list : List String)
      → IsDistinct gs
      → Within gs remaining
      → RoundResult gs remaining sort_list
  unfolding sort_round any
  round_result [] remaining sort_list d w = (
    remaining,
    sort_list,
    refl,
    record {
      less = omega arith;
      inside = λ r c. c;
      distinct = λ e. e;
      kept = λ s. refl;
      ordered = λ n. n;
    },
  )
  round_result (g ∷ gs) remaining sort_list d w = elim (Bool-cases (waits remaining g)) [
    | inl held ↦
        let (rest, list, e, r) = round_result gs remaining sort_list d.1 w.1 in
        (
          rest,
          list,
          rw (held, sort_round) e,
          record {
            less = rw held r.less;
            inside = r.inside;
            distinct = r.distinct;
            kept = r.kept;
            ordered = r.ordered;
          },
        )
    | inr free ↦
        let (rest, list, e, r) =
          round_result gs (without g remaining) (sort_list ++ (g ∷ [])) d.1
            (Within-without g gs remaining d.0 w.1) in
        (
          rest,
          list,
          rw (free, w.0, sort_round) e,
          record {
            less = rw free (omega (arith, r.less, length-without-lt g remaining w.0));
            inside = λ x c. ground (arith, r.inside x c, contains-without g x remaining);
            distinct = λ h. r.distinct (IsDistinct-without g remaining h);
            kept = λ s. r.kept s ∙ take_kept g remaining sort_list s w.0;
            ordered = λ n. r.ordered (take_ordered g remaining sort_list free w.0 n);
          },
        )
  ]

module _ (t : Topology) (rank : String → ℕ) where
  -- In an acyclic set some group waits for no other.
  some_free :
      (g : String) (gs remaining : List String)
      → ((s : String) → contains s gs ≡ contains s remaining)
      → contains g remaining ≡ true
      → Ranked (children t) rank remaining
      → any (λ x. not (waits t remaining x)) gs ≡ true
  some_free g gs remaining same here acyclic =
      elim (Bool-cases (any (λ x. not (waits t remaining x)) gs)) [
        | inl found ↦ found
        | inr all_wait ↦ absurd (
            no_deadlock (children t) rank remaining (suc (rank g)) g acyclic
              (λ s c.
                ground
                  (arith, any_none (λ x. not (waits t remaining x)) gs s all_wait (same s ∙ c)))
              here (omega arith))
      ]

  rounds_result :
      (fuel : ℕ) (remaining sort_list : List String)
      → length remaining ≤ fuel
      → IsDistinct remaining
      → Ranked (children t) rank remaining
      → NoneLater (children t) sort_list remaining
      → (list : List String) × (sort_rounds fuel t remaining sort_list ≡ some list)
        × NoneLater (children t) list []
        × ((s : String) → contains s list ≡ (contains s remaining || contains s sort_list))
  unfolding sort_rounds contains
  rounds_result fuel [] sort_list l d acyclic n = (sort_list, refl, n, λ s. refl)
  rounds_result zero (g ∷ gs) sort_list l d acyclic n = absurd (omega arith)
  rounds_result (suc fuel) (g ∷ gs) sort_list l d acyclic n =
      let remaining = g ∷ gs in
      let (rest, list, e, r) =
        round_result t (sorted remaining) remaining sort_list (IsDistinct-sorted remaining d) (
          Within-contains (sorted remaining) remaining
            (λ s c. sym (contains-sorted s remaining) ∙ c)) in
      let free =
        some_free g (sorted remaining) remaining (λ s. contains-sorted s remaining)
          (ground (arith, eq_refl g)) acyclic in
      let (final, e', ordered, complete) =
        rounds_result fuel rest list (omega (arith, r.less, ap (one_if) free)) (r.distinct d)
          (λ m x a b c. acyclic m x (r.inside m a) (r.inside x b) c) (r.ordered n) in
      (final, rw (e, sort_rounds) e', ordered, λ s. complete s ∙ r.kept s)

  -- If the names of the groups are distinct and membership among them respects some ranking, the
  -- `while` loop ends within as many rounds as there are groups, its list has exactly the groups that
  -- are no settings, and no group stands in it before, or at, one that it has as a member.
  pub reverse_topsort-children_first :
      IsDistinct (names t.groups)
      → Ranked (children t) rank (user_groups t)
      → (list : List String) × (reverse_topsort t ≡ some list)
        × NoneLater (children t) list []
        × ((s : String) → contains s list ≡ contains s (user_groups t))
  unfolding reverse_topsort contains
  reverse_topsort-children_first d acyclic =
      let (list, e, ordered, complete) =
        rounds_result (length (user_groups t)) (user_groups t) [] (omega arith)
          (IsDistinct-keep (λ g. not (is_setting g)) (names t.groups) d) acyclic tt in
      (list, e, ordered, λ s. ground (arith, complete s))
