-- ===== src/Sort/Acyclic.antt =====
-- Where the dependencies have no cycle, the watchdog is never reached.
use netlab.Prelude.{
  ℕ, zero, suc, ◌≤◌, ◌<◌, ◌≡◌, refl, String, Bool, true, some, List, [], ◌∷◌, ◌++◌, length, ltb,
  any, keep, arith, eq_iff, eq_refl, Bool-cases, inl, inr, length-keep-le,
}
use netlab.Prelude.Texts.{contains}
use netlab.Sort.{blocked, ready, skipped, rounds, dependency}
use netlab.Sort.Passes.{contains-keep}

pub any-contains :
    (mods rs : List String)
    → any (λ r. contains r mods) rs ≡ true
    → (r : String) × (contains r rs ≡ true) × (contains r mods ≡ true)
unfolding any contains
any-contains mods [] h = absurd (cc h)
any-contains mods (r ∷ rs) h = elim (Bool-cases (contains r mods)) [
  | inl here ↦ (r, ground (arith, eq_refl r), here)
  | inr other ↦
      let (s, in_rs, in_mods) = any-contains mods rs (rw other at h) in (s, ground arith, in_mods)
]

keep_all :
    (p : String → Bool) (xs : List String) (s : String)
    → length xs ≤ length (keep p xs)
    → contains s xs ≡ true
    → p s ≡ true
unfolding keep contains
keep_all p [] s l h = absurd (cc h)
keep_all p (x ∷ xs) s l h = ground (arith, keep_all p xs s, length-keep-le p xs, eq_iff x s)

module _ (get_dependency : String → List String) (rank : String → ℕ) where
  -- Among these objects a dependency has a smaller rank than what depends on it.
  abbrev pub Ranked : List String → Type 0
  Ranked mods =
      (m r : String)
      → contains m mods ≡ true
      → contains r mods ≡ true
      → contains r (get_dependency m) ≡ true
      → rank r < rank m

  -- A blocked object has a blocker of smaller rank, so not all can be blocked.
  pub no_deadlock :
      (mods : List String) (n : ℕ) (m : String)
      → Ranked mods
      → ((s : String) → contains s mods ≡ true → blocked get_dependency mods s ≡ true)
      → contains m mods ≡ true
      → rank m < n
      → ⊥
  no_deadlock mods zero m acyclic all h l = omega arith
  no_deadlock mods (suc n) m acyclic all h l =
      let (r, required, present) = any-contains mods (get_dependency m) (all m h) in
      no_deadlock mods n r acyclic all present (omega (arith, acyclic m r h present required))

  skipped-lt :
      (m : String) (ms : List String)
      → Ranked (m ∷ ms)
      → length (skipped get_dependency (m ∷ ms)) < length (m ∷ ms)
  unfolding contains
  skipped-lt m ms acyclic =
      elim (Bool-cases (ltb (length (skipped get_dependency (m ∷ ms))) (length (m ∷ ms)))) [
        | inl less ↦ ground arith
        | inr all_stay ↦ absurd (
            no_deadlock (m ∷ ms) (suc (rank m)) m acyclic
              (λ s c. keep_all (blocked get_dependency (m ∷ ms)) (m ∷ ms) s (ground arith) c)
              (ground (arith, eq_refl m)) (omega arith))
      ]

  rounds_total :
      (w : ℕ) (mods output : List String)
      → length mods ≤ w
      → Ranked mods
      → (out : List String) × (rounds get_dependency w mods output ≡ some out)
  unfolding rounds
  rounds_total w [] output l acyclic = (output, refl)
  rounds_total zero (m ∷ ms) output l acyclic = absurd (omega arith)
  rounds_total (suc w) (m ∷ ms) output l acyclic =
      let mods = m ∷ ms in
      let stays = blocked get_dependency mods in
      rounds_total w (skipped get_dependency mods) (output ++ ready get_dependency mods)
        (omega (arith, skipped-lt m ms acyclic))
        (λ s r in_s in_r.
          acyclic s r (contains-keep stays s mods in_s).0 (contains-keep stays r mods in_r).0)

  -- If the dependencies among the objects respect some ranking, the sort returns a list.
  pub dependency_total :
      (mods : List String)
      → Ranked mods
      → (out : List String) × (dependency get_dependency mods ≡ some out)
  unfolding dependency
  dependency_total mods acyclic = elim (Bool-cases (ltb (length mods) 2)) [
    | inl short ↦ (mods, rw short)
    | inr long ↦ rw long (rounds_total (length mods) mods [] (omega arith) acyclic)
  ]
