-- ===== src/Addressing/Allocation.antt =====
-- Prefixes that are allocated from one pool generator, in sequence or by index.
use Prim.Native.Nat.{◌^◌}
use mathlib.Core.List.{append-nil, append_assoc}
use netlab.Prelude.{
  lt-length_of_get_elem?, get_elem?-append_left, ℕ, zero, suc, ◌+◌, ◌-◌, ◌≤◌, ◌<◌, ◌≡◌, refl, ◌⊎◌,
  inl, inr, sym, ◌∙◌, ap, subst, arith, Option, none, some, List, [], ◌∷◌, ◌++◌, true, false,
  length, get_elem?, Bool,
}
use netlab.Addressing.Networks.{Net, Subnets, nth, Next, yields, stops, raises, next_subnet}
use netlab.Addressing.Disjoint.{Disjoint, Inside, nth-before, nth-Inside}
use netlab.Addressing.{fill, pick, get_nth_subnet, allocate, drawn_next}

-- The networks that the generator has yielded, in their order: the first `k` subnets.
abbrev pub first_subnets : Subnets → ℕ → List Net
first_subnets g zero = []
first_subnets g (suc k) = first_subnets g k ++ (nth g k ∷ [])

abbrev pub allocated_nets : Subnets → List Net
allocated_nets g = first_subnets g g.yielded

abbrev pub DisjointFromAll : Net → List Net → Type 0
DisjointFromAll x [] = Unit
DisjointFromAll x (y ∷ ys) = Disjoint x y × DisjointFromAll x ys

DisjointFromAll-append_one :
    (x y : Net) (ys : List Net)
    → DisjointFromAll x ys
    → Disjoint x y
    → DisjointFromAll x (ys ++ (y ∷ []))
DisjointFromAll-append_one x y [] d h = (h, tt)
DisjointFromAll-append_one x y (z ∷ ys) d h = (d.0, DisjointFromAll-append_one x y ys d.1 h)

nth-DisjointFromAll :
    (g : Subnets) (n k : ℕ) → k ≤ n → DisjointFromAll (nth g n) (first_subnets g k)
nth-DisjointFromAll g n zero h = tt
nth-DisjointFromAll g n (suc k) h =
    DisjointFromAll-append_one (nth g n) (nth g k) (first_subnets g k)
      (nth-DisjointFromAll g n k (omega arith)) (inr (nth-before g k n (omega arith)))

first_subnets-moved :
    (g : Subnets) (n k : ℕ) → first_subnets (record g { yielded = n }) k ≡ first_subnets g k
first_subnets-moved g n zero = refl
first_subnets-moved g n (suc k) = ap (λ l. l ++ (nth g k ∷ [])) (first_subnets-moved g n k)

next_subnet-yields :
    (g g' : Subnets) (x : Net)
    → next_subnet g ≡ yields x g'
    → (x ≡ nth g g.yielded)
      × (g' ≡ record g { yielded = g.yielded + 1 })
      × (g.base.prefixlen ≤ g.plen)
      × (g.plen ≤ g.base.bits)
      × (g.yielded < 2 ^ (g.plen - g.base.prefixlen))
unfolding next_subnet
next_subnet-yields g g' x h = (ground arith, ground arith, ground arith, ground arith, ground arith)

drawn_next_inv :
    (r : Next) (g g' : Subnets) (cache cache' : List Net) (x : Net)
    → drawn_next r g cache ≡ some (some x, g', cache')
    → (r ≡ yields x g') × (cache' ≡ cache)
drawn_next_inv (yields n g₁) g g' cache cache' x h = (cc h, cc h)
drawn_next_inv stops g g' cache cache' x h = absurd (cc h)
drawn_next_inv raises g g' cache cache' x h = absurd (cc h)

plus-one : (n : ℕ) → n + 1 ≡ suc n
plus-one n = omega arith

-- The next prefix of a pool, the first one as well as any later one, lies inside the pool's network,
-- has the length that the pool asks for, and overlaps none of the prefixes that were allocated from the
-- pool before, in sequence or by index; it is added to them, behind all of them, and the cache of the
-- prefixes allocated by index does not change.
pub allocate_next_fresh :
    (g g' : Subnets) (cache cache' : List Net) (x : Net)
    → allocate none g cache ≡ some (some x, g', cache')
    → Inside x g.base
      × (x.prefixlen ≡ g.plen)
      × DisjointFromAll x (allocated_nets g)
      × (allocated_nets g' ≡ allocated_nets g ++ (x ∷ []))
      × (cache' ≡ cache)
unfolding allocate
allocate_next_fresh g g' cache cache' x h =
    let (e, same) = drawn_next_inv (next_subnet g) g g' cache cache' x h in
    let (at, moved, a, b, room) = next_subnet-yields g g' x e in
    (
      subst (λ n. Inside n g.base) (sym at) (nth-Inside g g.yielded a b room),
      ap (λ (n : Net). n.prefixlen) at,
      subst (λ n. DisjointFromAll n (allocated_nets g)) (sym at)
          (nth-DisjointFromAll g g.yielded g.yielded (omega arith)),
      ap allocated_nets moved
          ∙ ap (first_subnets (record g { yielded = g.yielded + 1 })) (plus-one g.yielded)
          ∙ ap (λ l. l ++ (nth g g.yielded ∷ [])) (first_subnets-moved g (g.yielded + 1) g.yielded)
          ∙ ap (λ n. allocated_nets g ++ (n ∷ [])) (sym at),
      same,
    )

sub-one : (n : ℕ) → suc n - 1 ≡ n
sub-one n = omega arith

abbrev fill_step : ℕ → Subnets → List Net → Next → Option (Bool × Subnets × List Net)
fill_step k g cache r = elim r [
  | yields n g₁ ↦ fill k g₁ (cache ++ (n ∷ []))
  | stops ↦ some (false, g, cache)
  | raises ↦ none
]

abbrev Extends : List Net → List Net → Type 0
Extends cache cache' = (more : List Net) × (cache' ≡ cache ++ more)

Extends-refl : (cache : List Net) → Extends cache cache
Extends-refl cache = ([], sym (append-nil cache))

-- The loop only adds to the cache.
fill_step-Extends :
    (k : ℕ) (g g' : Subnets) (cache cache' : List Net) (b : Bool) (r : Next)
    → ((g₁ : Subnets) (c : List Net) → fill k g₁ c ≡ some (b, g', cache') → Extends c cache')
    → fill_step k g cache r ≡ some (b, g', cache')
    → Extends cache cache'
fill_step-Extends k g g' cache cache' b (yields n g₁) ih h =
    let (more, e) = ih g₁ (cache ++ (n ∷ [])) h in (n ∷ more, e ∙ append_assoc cache (n ∷ []) more)
fill_step-Extends k g g' cache cache' b stops ih h =
    let same : cache ≡ cache' = cc h in subst (λ c. Extends cache c) same (Extends-refl cache)
fill_step-Extends k g g' cache cache' b raises ih h = absurd (cc h)

fill-Extends :
    (k : ℕ) (g g' : Subnets) (cache cache' : List Net) (b : Bool)
    → fill k g cache ≡ some (b, g', cache')
    → Extends cache cache'
unfolding fill
fill-Extends zero g g' cache cache' b h =
    let same : cache ≡ cache' = cc h in subst (λ c. Extends cache c) same (Extends-refl cache)
fill-Extends (suc k) g g' cache cache' b h =
    fill_step-Extends k g g' cache cache' b (next_subnet g)
      (λ g₁ c e. fill-Extends k g₁ g' c cache' b e) h

pick_inv :
    (n : ℕ) (r : Option (Bool × Subnets × List Net)) (o : Option Net) (g' : Subnets)
    (cache' : List Net)
    → pick n r ≡ some (o, g', cache')
    → (b : Bool) × (r ≡ some (b, g', cache')) × ((o ≡ none) ⊎ (get_elem? cache' (n - 1) ≡ o))
pick_inv n none o g' cache' h = absurd (cc h)
pick_inv n (some (true, g, cache)) o g' cache' h = (true, cc h, inr (cc h))
pick_inv n (some (false, g, cache)) o g' cache' h = (false, cc h, inl (cc h))

drawn_next-Extends :
    (r : Next) (g g' : Subnets) (cache cache' : List Net) (o : Option Net)
    → drawn_next r g cache ≡ some (o, g', cache')
    → Extends cache cache'
drawn_next-Extends (yields n g₁) g g' cache cache' o h =
    subst (λ c. Extends cache c) (let e : cache ≡ cache' = cc h in e) (Extends-refl cache)
drawn_next-Extends stops g g' cache cache' o h =
    subst (λ c. Extends cache c) (let e : cache ≡ cache' = cc h in e) (Extends-refl cache)
drawn_next-Extends raises g g' cache cache' o h = absurd (cc h)

allocate-Extends :
    (r : Option ℕ) (g g' : Subnets) (cache cache' : List Net) (o : Option Net)
    → allocate r g cache ≡ some (o, g', cache')
    → Extends cache cache'
unfolding allocate get_nth_subnet
allocate-Extends (some (suc n)) g g' cache cache' o h =
    let (b, e, _) = pick_inv (suc n) (fill (suc n - length cache) g cache) o g' cache' h in
    fill-Extends (suc n - length cache) g g' cache cache' b e
allocate-Extends (some zero) g g' cache cache' o h =
    drawn_next-Extends (next_subnet g) g g' cache cache' o h
allocate-Extends none g g' cache cache' o h =
    drawn_next-Extends (next_subnet g) g g' cache cache' o h

cached :
    (n : ℕ) (g : Subnets) (cache : List Net) (x : Net)
    → get_elem? cache n ≡ some x
    → allocate (some (suc n)) g cache ≡ some (some x, g, cache)
unfolding allocate get_nth_subnet fill
cached n g cache x h =
    let e : suc n - length cache ≡ 0 = omega (arith, lt-length_of_get_elem? cache n x h) in
    rw e (ap (λ (o : Option Net). some (o, g, cache)) (ap (get_elem? cache) (sub-one n) ∙ h))

first_at :
    (n : ℕ) (g g₁ : Subnets) (cache cache₁ : List Net) (x : Net)
    → allocate (some (suc n)) g cache ≡ some (some x, g₁, cache₁)
    → get_elem? cache₁ n ≡ some x
unfolding allocate get_nth_subnet
first_at n g g₁ cache cache₁ x h =
    let (b, e, found) =
      pick_inv (suc n) (fill (suc n - length cache) g cache) (some x) g₁ cache₁ h in
    elim found [
      | inl impossible ↦ absurd (cc impossible)
      | inr at ↦ ap (get_elem? cache₁) (sym (sub-one n)) ∙ at
    ]

-- The n-th prefix of a pool is the same whenever it is asked for again, whatever was allocated
-- from the pool in between, and asking again allocates nothing.
pub allocate_nth_stable :
    (n : ℕ) (r : Option ℕ) (g g₁ g₂ : Subnets) (cache cache₁ cache₂ : List Net) (x : Net)
    (o : Option Net)
    → allocate (some (suc n)) g cache ≡ some (some x, g₁, cache₁)
    → allocate r g₁ cache₁ ≡ some (o, g₂, cache₂)
    → allocate (some (suc n)) g₂ cache₂ ≡ some (some x, g₂, cache₂)
allocate_nth_stable n r g g₁ g₂ cache cache₁ cache₂ x o h k =
    let at : get_elem? cache₁ n ≡ some x = first_at n g g₁ cache cache₁ x h in
    let (more, e) = allocate-Extends r g₁ g₂ cache₁ cache₂ o k in
    cached n g₂ cache₂ x (
      ap (λ (c : List Net). get_elem? c n) e
      ∙ get_elem?-append_left cache₁ more n (lt-length_of_get_elem? cache₁ n x at)
      ∙ at)
