-- ===== src/Groups/Gathering.antt =====
-- What the loop of group_members, netsim/augment/groups.py, collects.

use netlab.Prelude.{
  ◌≡◌, refl, sym, ap, ◌∙◌, String, Bool, true, false, ◌&&◌, ◌||◌, Option, none, some, List, [], ◌∷◌,
  ◌++◌, ◌⊎◌, inl, inr, arith, eq_iff, eq_refl, ◌==◌, Bool-cases, if◌then◌else◌, some_inj,
}
use netlab.Prelude.Texts.{contains, contains-append}
use netlab.Groups.Defs.{Topology, has_key, namespace}
use netlab.Groups.Members.{when_in, joined, gather}

contains-when_in : (b : Bool) (s m : String) → contains s (when_in b m) ≡ (b && m == s)
unfolding contains
contains-when_in true s m = ground arith
contains-when_in false s m = refl

pub joined_inv :
    (own : List String) (a b : Option (List String)) (xs : List String)
    → joined own a b ≡ some xs
    → (ys : List String) × (zs : List String) × (a ≡ some ys)
      × (b ≡ some zs)
      × (xs ≡ own ++ (ys ++ zs))
joined_inv own (some ys) (some zs) xs h = (ys, zs, refl, refl, sym (some_inj h))
joined_inv own (some ys) none xs h = absurd (cc h)
joined_inv own none b xs h = absurd (cc h)

-- Where a name in a result of the loop comes from.
abbrev pub Source :
    Topology → String → (String → Option (List String)) → List String → String → Type 0
Source t kind below ms s =
    ((contains s ms ≡ true) × (contains s (namespace t kind) ≡ true))
    ⊎ ((m : String) × (ys : List String) × (contains m ms ≡ true)
        × (has_key m t.groups ≡ true)
        × (below m ≡ some ys)
        × (contains s ys ≡ true))

pub contains_head : (x : String) (xs : List String) → contains x (x ∷ xs) ≡ true
unfolding contains
contains_head x xs = ground (arith, eq_refl x)

pub contains_tail :
    (s x : String) (xs : List String) → contains s xs ≡ true → contains s (x ∷ xs) ≡ true
unfolding contains
contains_tail s x xs h = ground (arith, h)

module _ (t : Topology) (kind : String) (below : String → Option (List String)) where
  Source-tail :
      (m s : String) (ms : List String) → Source t kind below ms s → Source t kind below (m ∷ ms) s
  Source-tail m s ms (inl (a, b)) = inl (contains_tail s m ms a, b)
  Source-tail m s ms (inr (x, ys, a, b, c, d)) = inr (x, ys, contains_tail x m ms a, b, c, d)

  from_below :
      (m s : String) (ms ys : List String)
      → (if has_key m t.groups then below m else some []) ≡ some ys
      → contains s ys ≡ true
      → Source t kind below (m ∷ ms) s
  unfolding contains
  from_below m s ms ys e c = elim (Bool-cases (has_key m t.groups)) [
    | inl group ↦ inr (m, ys, contains_head m ms, group, rw group at e, c)
    | inr leaf ↦
        let nothing : [] ≡ ys = some_inj (rw leaf at e) in absurd (cc (ap (contains s) nothing ∙ c))
  ]

  pub gather_sound :
      (ms xs : List String) (s : String)
      → gather t kind below ms ≡ some xs
      → contains s xs ≡ true
      → Source t kind below ms s
  unfolding gather contains
  gather_sound [] xs s h c = absurd (cc (ap (contains s) (some_inj h) ∙ c))
  gather_sound (m ∷ ms) xs s h c =
      let own = when_in (contains m (namespace t kind)) m in
      let (ys, zs, is_below, is_rest, shape) =
        joined_inv own (if has_key m t.groups then below m else some []) (gather t kind below ms) xs
          h in
      elim (Bool-cases (contains s own)) [
        | inl mine ↦ inl (
          ground (arith, mine, contains-when_in (contains m (namespace t kind)) s m, eq_iff m s),
          ground (arith, mine, contains-when_in (contains m (namespace t kind)) s m, eq_iff m s),
        )
        | inr not_own ↦ elim (Bool-cases (contains s ys)) [
          | inl deeper ↦ from_below m s ms ys is_below deeper
          | inr not_below ↦ Source-tail m s ms (
              gather_sound ms zs s is_rest (
                let split : contains s (own ++ (ys ++ zs)) ≡ true =
                  ap (contains s) (sym shape) ∙ c in
                ground (
                  arith,
                  split,
                  not_own,
                  not_below,
                  contains-append s own (ys ++ zs),
                  contains-append s ys zs,
                )))
        ]
      ]

  below_is :
      (m : String) (ys zs : List String)
      → (if has_key m t.groups then below m else some []) ≡ some ys
      → has_key m t.groups ≡ true
      → below m ≡ some zs
      → zs ≡ ys
  below_is m ys zs e k b = some_inj (sym b ∙ (rw k at e))

  gathered :
      (m s : String) (ms ys zs : List String)
      → (if has_key m t.groups then below m else some []) ≡ some ys
      → (Source t kind below ms s → contains s zs ≡ true)
      → Source t kind below (m ∷ ms) s
      → (contains s (when_in (contains m (namespace t kind)) m) || (contains s ys || contains s zs))
        ≡ true
  unfolding contains
  gathered m s ms ys zs e r (inl (a, b)) = elim (Bool-cases (m == s)) [
    | inl same ↦
        ground (arith, same, b, eq_iff m s, contains-when_in (contains m (namespace t kind)) s m)
    | inr other ↦
        let more : contains s zs ≡ true = r (inl (rw other at a, b)) in ground (arith, more)
  ]
  gathered m s ms ys zs e r (inr (x, ws, a, b, c, d)) = elim (Bool-cases (m == x)) [
    | inl same ↦
        let p : x ≡ m = sym ((eq_iff m x).0 same) in
        let q : ws ≡ ys =
          below_is m ys ws e (ap (λ y. has_key y t.groups) (sym p) ∙ b) (ap below (sym p) ∙ c) in
        let more : contains s ys ≡ true = ap (contains s) (sym q) ∙ d in ground (arith, more)
    | inr other ↦
        let more : contains s zs ≡ true = r (inr (x, ws, rw other at a, b, c, d)) in
        ground (arith, more)
  ]

  pub gather_complete :
      (ms xs : List String) (s : String)
      → gather t kind below ms ≡ some xs
      → Source t kind below ms s
      → contains s xs ≡ true
  unfolding gather contains
  gather_complete [] xs s h (inl (a, b)) = absurd (cc a)
  gather_complete [] xs s h (inr (m, ys, a, b, c, d)) = absurd (cc a)
  gather_complete (m ∷ ms) xs s h source =
      let own = when_in (contains m (namespace t kind)) m in
      let (ys, zs, is_below, is_rest, shape) =
        joined_inv own (if has_key m t.groups then below m else some []) (gather t kind below ms) xs
          h in
      ap (contains s) shape
      ∙ contains-append s own (ys ++ zs)
      ∙ ap (λ b. contains s own || b) (contains-append s ys zs)
      ∙ gathered m s ms ys zs is_below (gather_complete ms zs s is_rest) source
