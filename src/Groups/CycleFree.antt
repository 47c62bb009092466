-- ===== src/Groups/CycleFree.antt =====
-- check_recursive_groups: the depth of the recursion is bounded, and silence means no cycle.
use netlab.Prelude.{
  ℕ, zero, suc, ◌+◌, ◌≤◌, ◌≡◌, refl, sym, ap, subst, ◌∙◌, ◌==◌, String, true, false, Option, none,
  some, List, [], ◌∷◌, ◌++◌, inl, inr, length, arith, eq_iff, eq_refl, Bool-cases, length-append,
}
use netlab.Prelude.Texts.{contains, contains-append}
use netlab.Prelude.Distinct.{
  IsDistinct, Within, length-le_of_Within, Within-append_one, Within-refl, IsDistinct-append_one,
}
use netlab.Groups.Defs.{Topology, has_key, names, is_setting}
use netlab.Log.{Reports, report, incorrect_value}
use netlab.Groups.Cycles.{
  first_found, Found, after_call, children, scan, check_recursive_chain, check_groups,
  check_recursive_groups,
}

pub contains-names {ℓ} :
    {A : Type ℓ} (k : String) (l : List (String × A)) → contains k (names l) ≡ has_key k l
unfolding contains
contains-names k [] = refl
contains-names k ((j, a) ∷ l) = ground (arith, contains-names k l)

contains_last : (xs : List String) (s : String) → contains s (xs ++ s ∷ []) ≡ true
unfolding contains
contains_last xs s = ground (arith, contains-append s xs (s ∷ []), eq_refl s)

contains_earlier :
    (xs ys : List String) (s : String) → contains s xs ≡ true → contains s (xs ++ ys) ≡ true
contains_earlier xs ys s h = ground (arith, contains-append s xs ys)

abbrev Answers : Found → Type 0
Answers f = (r : Option (List String)) × (f ≡ some r)

after_call-Answers :
    (chain : List String) (f rest : Found)
    → Answers f
    → Answers rest
    → Answers (after_call chain f rest)
after_call-Answers chain none rest (r, e) a = absurd (cc e)
after_call-Answers chain (some none) rest f a = a
after_call-Answers chain (some (some c)) rest f a = (some chain, refl)

module _ (t : Topology) where
  scan-Answers :
      (call : List String → String → Found) (chain ms : List String)
      → ((m : String)
          → contains m chain ≡ false
          → has_key m t.groups ≡ true
          → Answers (call chain m))
      → Answers (scan t call chain ms)
  unfolding scan
  scan-Answers call chain [] answers = (none, refl)
  scan-Answers call chain (m ∷ ms) answers =
      let rest = scan-Answers call chain ms answers in
      elim (Bool-cases (contains m chain)) [
        | inl loops ↦ rw loops (some (chain ++ m ∷ []), refl)
        | inr new ↦ rw new (elim (Bool-cases (has_key m t.groups)) [
          | inl group ↦ rw group (
              after_call-Answers chain (call chain m) (scan t call chain ms) (answers m new group)
                rest)
          | inr leaf ↦ rw leaf rest
        ])
      ]

  -- The chain holds distinct groups, so the recursion is never deeper than there are groups.
  check_recursive_chain-Answers :
      (fuel : ℕ) (chain : List String) (group : String)
      → length (names t.groups) ≤ fuel + length chain
      → IsDistinct chain
      → Within chain (names t.groups)
      → contains group chain ≡ false
      → has_key group t.groups ≡ true
      → Answers (check_recursive_chain fuel t chain group)
  unfolding check_recursive_chain
  check_recursive_chain-Answers zero chain group l d w n k =
      let longer =
        length-le_of_Within (chain ++ group ∷ []) (names t.groups)
          (IsDistinct-append_one chain group d n)
          (Within-append_one chain (names t.groups) group w (contains-names group t.groups ∙ k)) in
      absurd (omega (arith, longer, length-append chain (group ∷ [])))
  check_recursive_chain-Answers (suc fuel) chain group l d w n k =
      scan-Answers (check_recursive_chain fuel t) (chain ++ group ∷ []) (children t group)
        (λ m new known.
          check_recursive_chain-Answers fuel (chain ++ group ∷ []) m
            (omega (arith, length-append chain (group ∷ [])))
            (IsDistinct-append_one chain group d n)
            (Within-append_one chain (names t.groups) group w (contains-names group t.groups ∙ k))
            new known)

  -- The second group is a member of the first, directly or over other groups.
  pub data Trail : String → String → Type 0 where
    member :
        {g h : String} → contains h (children t g) ≡ true → has_key h t.groups ≡ true → Trail g h
    over :
        {g m h : String}
        → contains m (children t g) ≡ true
        → has_key m t.groups ≡ true
        → Trail m h
        → Trail g h

  after_call_clean :
      (chain : List String) (f rest : Found)
      → after_call chain f rest ≡ some none
      → (f ≡ some none) × (rest ≡ some none)
  after_call_clean chain none rest h = absurd (cc h)
  after_call_clean chain (some none) rest h = (refl, h)
  after_call_clean chain (some (some c)) rest h = absurd (cc h)

  scan_clean :
      (call : List String → String → Found) (chain ms : List String) (m : String)
      → scan t call chain ms ≡ some none
      → contains m ms ≡ true
      → has_key m t.groups ≡ true
      → (contains m chain ≡ false) × (call chain m ≡ some none)
  unfolding scan contains
  scan_clean call chain [] m h c k = absurd (cc c)
  scan_clean call chain (x ∷ ms) m h c k = elim (Bool-cases (contains x chain)) [
    | inl loops ↦ absurd (cc (rw loops at h))
    | inr new ↦ elim (Bool-cases (x == m)) [
      | inl same ↦
          let e : x ≡ m = (eq_iff x m).0 same in
          subst (λ y. (contains y chain ≡ false) × (call chain y ≡ some none)) e
            (
              new,
              (after_call_clean chain (call chain x) (scan t call chain ms) (
                  let known : has_key x t.groups ≡ true = ap (λ y. has_key y t.groups) e ∙ k in
                  rw (new, known) at h)).0,
            )
      | inr other ↦ scan_clean call chain ms m (later x new h) (rw other at c) k
    ]
  ]
    where
      later :
          (y : String)
          → contains y chain ≡ false
          → scan t call chain (y ∷ ms) ≡ some none
          → scan t call chain ms ≡ some none
      later y new e = elim (Bool-cases (has_key y t.groups)) [
        | inl group ↦
            (after_call_clean chain (call chain y) (scan t call chain ms) (rw (new, group) at e)).1
        | inr leaf ↦ rw (new, leaf) at e
      ]

  -- From a group whose check reports nothing, no trail leads back to a group of the chain.
  no_return :
      (fuel : ℕ) (chain : List String) (g h : String)
      → check_recursive_chain fuel t chain g ≡ some none
      → contains h (chain ++ g ∷ []) ≡ true
      → Trail g h
      → ⊥
  unfolding check_recursive_chain
  no_return zero chain g h clean held trail = cc clean
  no_return (suc fuel) chain g h clean held (member c k) =
      let (new, _) =
        scan_clean (check_recursive_chain fuel t) (chain ++ g ∷ []) (children t g) h clean c k in
      cc (held, new)
  no_return (suc fuel) chain g h clean held (over {m} c k trail) =
      let (_, below) =
        scan_clean (check_recursive_chain fuel t) (chain ++ g ∷ []) (children t g) m clean c k in
      no_return fuel (chain ++ g ∷ []) m h below
        (contains_earlier (chain ++ g ∷ []) (m ∷ []) h held) trail

  first_found_clean :
      (f : Found) (rest : Option Reports)
      → first_found f rest ≡ some []
      → (f ≡ some none) × (rest ≡ some [])
  first_found_clean none rest h = absurd (cc h)
  first_found_clean (some none) rest h = (refl, h)
  first_found_clean (some (some c)) rest h = absurd (cc h)

  check_groups_clean :
      (gs : List String) (g : String)
      → check_groups t gs ≡ some []
      → contains g gs ≡ true
      → is_setting g ≡ false
      → check_recursive_chain (length (names t.groups)) t [] g ≡ some none
  unfolding check_groups contains
  check_groups_clean [] g h c s = absurd (cc c)
  check_groups_clean (x ∷ gs) g h c s = elim (Bool-cases (x == g)) [
    | inl same ↦
        let e : x ≡ g = (eq_iff x g).0 same in
        let plain : is_setting x ≡ false = ap is_setting e ∙ s in
        subst (λ y. check_recursive_chain (length (names t.groups)) t [] y ≡ some none) e
          (first_found_clean _ (check_groups t gs) (rw plain at h)).0
    | inr other ↦ check_groups_clean gs g (rest_clean x h) (rw other at c) s
  ]
    where
      rest_clean : (y : String) → check_groups t (y ∷ gs) ≡ some [] → check_groups t gs ≡ some []
      rest_clean y e = elim (Bool-cases (is_setting y)) [
        | inl setting ↦ rw setting at e
        | inr plain ↦ (first_found_clean _ (check_groups t gs) (rw plain at e)).1
      ]

  -- If the check of all groups reports nothing, no group is a member of itself, directly or over
  -- other groups.
  pub check_recursive_groups_acyclic :
      (g : String)
      → check_recursive_groups t ≡ some []
      → has_key g t.groups ≡ true
      → is_setting g ≡ false
      → Trail g g
      → ⊥
  unfolding check_recursive_groups
  check_recursive_groups_acyclic g clean known plain trail =
      no_return (length (names t.groups)) [] g g
        (check_groups_clean (names t.groups) g clean (contains-names g t.groups ∙ known) plain)
        (contains_last [] g) trail

  first_found_total :
      (f : Found) (rest : Option Reports)
      → Answers f
      → (r : Reports) × (rest ≡ some r)
      → (r : Reports) × (first_found f rest ≡ some r)
  first_found_total none rest (r, e) b = absurd (cc e)
  first_found_total (some none) rest a b = b
  first_found_total (some (some c)) rest a b = (report incorrect_value "groups" ∷ [], refl)

  check_groups_total :
      (gs : List String) → Within gs (names t.groups) → (r : Reports) × (check_groups t gs ≡ some r)
  unfolding check_groups contains
  check_groups_total [] w = ([], refl)
  check_groups_total (g ∷ gs) w =
      let rest = check_groups_total gs w.1 in
      elim (Bool-cases (is_setting g)) [
        | inl setting ↦ rw setting rest
        | inr plain ↦ rw plain (
            first_found_total _ (check_groups t gs)
              (check_recursive_chain-Answers (length (names t.groups)) [] g (omega arith) tt tt refl
                (sym (contains-names g t.groups) ∙ w.0))
              rest)
      ]

  -- The check of all groups ends, however the groups refer to one another.
  pub check_recursive_groups_total : (r : Reports) × (check_recursive_groups t ≡ some r)
  unfolding check_recursive_groups
  check_recursive_groups_total = check_groups_total (names t.groups) (Within-refl (names t.groups))
