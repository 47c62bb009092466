-- ===== src/Sort/Order.antt =====
-- No object stands before, or at, one that it depends on.
use netlab.Prelude.{
  ◌≡◌, refl, String, true, false, not, some, List, [], ◌∷◌, ◌++◌, ℕ, zero, suc, ◌≤◌, ltb, length,
  arith, any, keep, some_inj, subst, Bool-cases, inl, inr,
}
use netlab.Prelude.Texts.{contains, contains-append}
use netlab.Sort.{blocked, ready, skipped, rounds, dependency}
use netlab.Sort.Passes.{contains-keep}

abbrev pub Includes : List String → List String → Type 0
Includes xs ys = (r : String) → contains r xs ≡ true → contains r ys ≡ true

pub any-Includes :
    (xs ys rs : List String)
    → Includes xs ys
    → any (λ r. contains r ys) rs ≡ false
    → any (λ r. contains r xs) rs ≡ false
unfolding any
any-Includes xs ys [] i h = refl
any-Includes xs ys (r ∷ rs) i h = ground (arith, i r, any-Includes xs ys rs i)

module _ (get_dependency : String → List String) where
  -- No object of the first list depends on itself, on a later one, or on one of the second list.
  abbrev pub NoneLater : List String → List String → Type 0
  NoneLater [] rest = Unit
  NoneLater (m ∷ ms) rest =
      (any (λ r. contains r ((m ∷ ms) ++ rest)) (get_dependency m) ≡ false) × NoneLater ms rest

  pub NoneLater-append :
      (xs ys rest mods : List String)
      → Includes (ys ++ rest) mods
      → NoneLater xs mods
      → NoneLater ys rest
      → NoneLater (xs ++ ys) rest
  unfolding contains
  NoneLater-append [] ys rest mods i h k = k
  NoneLater-append (x ∷ xs) ys rest mods i h k = (
    any-Includes ((x ∷ (xs ++ ys)) ++ rest) ((x ∷ xs) ++ mods) (get_dependency x)
        (λ r c. ground (
          arith,
          i r,
          contains-append r (xs ++ ys) rest,
          contains-append r xs ys,
          contains-append r ys rest,
          contains-append r xs mods,
        ))
        h.0,
    NoneLater-append xs ys rest mods i h.1 k,
  )

  NoneLater-keep :
      (mods pass rest : List String)
      → Includes pass mods
      → Includes rest mods
      → NoneLater (keep (λ m. not (blocked get_dependency mods m)) pass) rest
  unfolding keep contains
  NoneLater-keep mods [] rest i j = tt
  NoneLater-keep mods (m ∷ pass) rest i j =
      let p = λ (x : String). not (blocked get_dependency mods x) in
      let tail_in : Includes pass mods = λ r c. i r (ground (arith, c)) in
      elim (Bool-cases (blocked get_dependency mods m)) [
        | inl held ↦ rw held (NoneLater-keep mods pass rest tail_in j)
        | inr free ↦ rw free (
          any-Includes ((m ∷ keep p pass) ++ rest) mods (get_dependency m)
              (λ r c.
                ground
                  (arith, i r, j r, contains-append r (keep p pass) rest, contains-keep p r pass))
              free,
          NoneLater-keep mods pass rest tail_in j,
        )
      ]

  rounds-NoneLater :
      (w : ℕ) (mods output out : List String)
      → NoneLater output mods
      → rounds get_dependency w mods output ≡ some out
      → NoneLater out []
  unfolding rounds
  rounds-NoneLater w [] output out n h = subst (λ l. NoneLater l []) (some_inj h) n
  rounds-NoneLater zero (m ∷ ms) output out n h = absurd (cc h)
  rounds-NoneLater (suc w) (m ∷ ms) output out n h =
      let mods = m ∷ ms in
      let later = skipped get_dependency mods in
      let now = ready get_dependency mods in
      let later_in : Includes later mods =
        λ r c. (contains-keep (blocked get_dependency mods) r mods c).0 in
      let now_in : Includes now mods =
        λ r c. (contains-keep (λ x. not (blocked get_dependency mods x)) r mods c).0 in
      rounds-NoneLater w later (output ++ now) out
        (NoneLater-append output now later mods
          (λ r c. ground (arith, contains-append r now later, later_in r, now_in r)) n
          (NoneLater-keep mods mods later (λ r c. c) later_in))
        h

  -- Of two or more objects the sorted list has none that depends on itself or on a later one.
  pub dependency-NoneLater :
      (mods out : List String)
      → 2 ≤ length mods
      → dependency get_dependency mods ≡ some out
      → NoneLater out []
  unfolding dependency
  dependency-NoneLater mods out l h =
      rounds-NoneLater (length mods) mods [] out tt
        (rw (let e : ltb (length mods) 2 ≡ false = ground arith in e) at h)
