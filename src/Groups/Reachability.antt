-- ===== src/Groups/Reachability.antt =====
-- The members that the group hierarchy defines, and those that group_members returns.
use netlab.Groups.Cycles.{children, members_in}
use netlab.Prelude.{
  ◌<◌, ◌↔◌, ℕ, zero, suc, ◌≡◌, refl, sym, ap, ◌∙◌, String, true, Option, none, some, List, [], ◌∷◌,
  ◌++◌, inl, inr, arith, eq_iff, ◌==◌, Bool-cases, if◌then◌else◌, Option-cases, some_inj,
}
use netlab.Prelude.Texts.{contains}
use netlab.Groups.Defs.{Group, Topology, find, has_key, namespace}
use netlab.Groups.Members.{
  list_or_empty, when_in, gather, special_of, members_of_group, special_or, members_from,
  group_members,
}
use netlab.Groups.Gathering.{
  joined_inv, contains_head, contains_tail, gather_sound, gather_complete,
}

-- A node, VLAN or VRF belongs to a group that has the type: because the group lists it, because a
-- group that it lists does, or because the group is 'all' or named after its device.
pub data Member (t : Topology) (kind : String) : String → String → Type 0 where
  listed :
      {s g : String} (gd : Group)
      → find g t.groups ≡ some gd
      → (gd.kind == kind) ≡ true
      → special_of t gd g ≡ none
      → contains s (list_or_empty gd.members) ≡ true
      → contains s (namespace t kind) ≡ true
      → Member t kind s g
  nested :
      {s g : String} (gd : Group) (m : String)
      → find g t.groups ≡ some gd
      → (gd.kind == kind) ≡ true
      → special_of t gd g ≡ none
      → contains m (list_or_empty gd.members) ≡ true
      → has_key m t.groups ≡ true
      → Member t kind s m
      → Member t kind s g
  implied :
      {s g : String} (gd : Group) (xs : List String)
      → find g t.groups ≡ some gd
      → (gd.kind == kind) ≡ true
      → special_of t gd g ≡ some xs
      → contains s xs ≡ true
      → Member t kind s g

module _ (t : Topology) (kind : String) where
  members_of_group_sound :
      (below : String → Option (List String)) (g : String) (gd : Group) (xs : List String)
      (s : String)
      → ((m : String) (ys : List String)
          → below m ≡ some ys
          → contains s ys ≡ true
          → Member t kind s m)
      → find g t.groups ≡ some gd
      → members_of_group t g kind below (some gd) ≡ some xs
      → contains s xs ≡ true
      → Member t kind s g
  unfolding contains
  members_of_group_sound below g gd xs s ih at h c = elim (Bool-cases (gd.kind == kind)) [
    | inr other ↦
        let nothing : [] ≡ xs = some_inj (rw other at h) in
        absurd (cc (ap (contains s) nothing ∙ c))
    | inl same ↦ elim (Option-cases (special_of t gd g)) [
      | inr (ys, special) ↦
          implied gd ys at same special
            (ap (contains s) (let e : ys ≡ xs = some_inj (rw (same, special) at h) in e) ∙ c)
      | inl plain ↦
          elim (gather_sound t kind below (list_or_empty gd.members) xs s (rw (same, plain) at h)
            c) [
              | inl (a, b) ↦ listed gd at same plain a b
              | inr (m, ys, a, b, e, d) ↦ nested gd m at same plain a b (ih m ys e d)
            ]
    ]
  ]

  members_from_sound :
      (fuel : ℕ) (g : String) (xs : List String) (s : String)
      → members_from fuel t kind g ≡ some xs
      → contains s xs ≡ true
      → Member t kind s g
  unfolding members_from contains
  members_from_sound zero g xs s h c = elim (Bool-cases (has_key g t.groups)) [
    | inl known ↦ absurd (cc (rw known at h))
    | inr unknown ↦ absurd (cc (ap (contains s) (some_inj (rw unknown at h)) ∙ c))
  ]
  members_from_sound (suc fuel) g xs s h c = elim (Option-cases (find g t.groups)) [
    | inl unknown ↦ absurd (cc (ap (contains s) (some_inj (rw unknown at h)) ∙ c))
    | inr (gd, at) ↦
        members_of_group_sound (members_from fuel t kind) g gd xs s
          (λ m ys e d. members_from_sound fuel m ys s e d) at (rw at at h) c
  ]

  gather_defined :
      (below : String → Option (List String)) (ms xs : List String) (m : String)
      → gather t kind below ms ≡ some xs
      → contains m ms ≡ true
      → has_key m t.groups ≡ true
      → (ys : List String) × (below m ≡ some ys)
  unfolding gather contains
  gather_defined below [] xs m h c k = absurd (cc c)
  gather_defined below (x ∷ ms) xs m h c k =
      let (ys, zs, is_below, is_rest, shape) =
        joined_inv (when_in (contains x (namespace t kind)) x)
          (if has_key x t.groups then below x else some []) (gather t kind below ms) xs h in
      elim (Bool-cases (x == m)) [
        | inl same ↦
            let p : x ≡ m = (eq_iff x m).0 same in
            (
              ys,
              ap below (sym p)
                  ∙ (rw
                      (let known : has_key x t.groups ≡ true = ap (λ y. has_key y t.groups) p ∙ k in
                        known)
                      at is_below),
            )
        | inr other ↦ gather_defined below ms zs m is_rest (rw other at c) k
      ]

  listing :
      (fuel : ℕ) (g : String) (gd : Group) (xs : List String)
      → find g t.groups ≡ some gd
      → (gd.kind == kind) ≡ true
      → members_from (suc fuel) t kind g ≡ some xs
      → special_or
          (special_of t gd g)
          (gather t kind (members_from fuel t kind) (list_or_empty gd.members))
        ≡ some xs
  unfolding members_from
  listing fuel g gd xs at same h = rw (at, same) at h

  not_zero :
      (g : String) (gd : Group) (xs : List String) {A : Type 0}
      → find g t.groups ≡ some gd
      → members_from zero t kind g ≡ some xs
      → A
  unfolding members_from
  not_zero g gd xs at h = absurd (cc (rw at at h))

  members_from_complete :
      (fuel : ℕ) {s g : String} (xs : List String)
      → Member t kind s g
      → members_from fuel t kind g ≡ some xs
      → contains s xs ≡ true
  members_from_complete zero {g = g} xs (listed gd at same plain a b) h = not_zero g gd xs at h
  members_from_complete zero {g = g} xs (nested gd m at same plain a b r) h = not_zero g gd xs at h
  members_from_complete zero {g = g} xs (implied gd ys at same special c) h = not_zero g gd xs at h
  members_from_complete (suc fuel) {s} {g} xs (listed gd at same plain a b) h =
      gather_complete t kind (members_from fuel t kind) (list_or_empty gd.members) xs s
        (rw plain at (listing fuel g gd xs at same h)) (inl (a, b))
  members_from_complete (suc fuel) {s} {g} xs (implied gd ys at same special c) h =
      ap (contains s) (sym (some_inj (rw special at (listing fuel g gd xs at same h)))) ∙ c
  members_from_complete (suc fuel) {s} {g} xs (nested gd m at same plain a b r) h =
      let below = members_from fuel t kind in
      let got = rw plain at (listing fuel g gd xs at same h) in
      let (ys, e) = gather_defined below (list_or_empty gd.members) xs m got a b in
      gather_complete t kind below (list_or_empty gd.members) xs s got
        (inr (m, ys, a, b, e, members_from_complete fuel ys r e))

  -- When group_members returns, its list has exactly the members that the hierarchy defines.
  pub group_members_exact :
      (g s : String) (xs : List String)
      → (group_members t g kind).0 ≡ some xs
      → (contains s xs ≡ true) ↔ Member t kind s g
  unfolding group_members
  group_members_exact g s xs h =
      ((λ c. members_from_sound 100 g xs s h c), (λ m. members_from_complete 100 xs m h))

  -- What a group's members have, if each call below returns.
  gather_total :
      (below : String → Option (List String)) (ms : List String)
      → ((m : String)
          → contains m ms ≡ true
          → has_key m t.groups ≡ true
          → (ys : List String) × (below m ≡ some ys))
      → (xs : List String) × (gather t kind below ms ≡ some xs)
  unfolding gather contains
  gather_total below [] h = ([], refl)
  gather_total below (m ∷ ms) h =
      let own = when_in (contains m (namespace t kind)) m in
      let (zs, e) = gather_total below ms (λ x c k. h x (contains_tail x m ms c) k) in
      elim (Bool-cases (has_key m t.groups)) [
        | inl group ↦
            let (ys, b) = h m (contains_head m ms) group in (own ++ (ys ++ zs), rw (group, b, e))
        | inr leaf ↦ (own ++ ([] ++ zs), rw (leaf, e))
      ]

  members_of_group_total :
      (below : String → Option (List String)) (g : String) (o : Option Group)
      → ((m : String)
          → contains m (members_in o) ≡ true
          → has_key m t.groups ≡ true
          → (ys : List String) × (below m ≡ some ys))
      → (xs : List String) × (members_of_group t g kind below o ≡ some xs)
  members_of_group_total below g none h = ([], refl)
  members_of_group_total below g (some gd) h = elim (Bool-cases (gd.kind == kind)) [
    | inr other ↦ ([], rw other)
    | inl same ↦ rw same (elim (Option-cases (special_of t gd g)) [
      | inr (ys, special) ↦ (ys, rw special)
      | inl plain ↦ rw plain (gather_total below (list_or_empty gd.members) h)
    ])
  ]

  module _ (rank : String → ℕ)
      (acyclic : (g m : String)
        → contains m (children t g) ≡ true
        → has_key m t.groups ≡ true
        → rank m < rank g) where
    members_from_total :
        (fuel : ℕ) (g : String)
        → rank g < fuel
        → (xs : List String) × (members_from fuel t kind g ≡ some xs)
    unfolding members_from children
    members_from_total zero g l = absurd (omega arith)
    members_from_total (suc fuel) g l =
        members_of_group_total (members_from fuel t kind) g (find g t.groups)
          (λ m c k. members_from_total fuel m (omega (arith, acyclic g m c k)))

    -- If membership among the groups respects a ranking and the rank of the group is below 100,
    -- the recursion limit is not met, and the result is exactly the members of the hierarchy.
    pub group_members_total :
        (g : String)
        → rank g < 100
        → (xs : List String) × ((group_members t g kind).0 ≡ some xs)
          × ((s : String) → (contains s xs ≡ true) ↔ Member t kind s g)
    unfolding group_members
    group_members_total g l =
        let (xs, e) = members_from_total 100 g l in (xs, e, λ s. group_members_exact g s xs e)
