-- ===== src/Sort/Passes.antt =====
-- One round splits the objects into those that are ready and those that are skipped.
use mathlib.Core.List.{Perm, perm_middle, append_assoc, append-nil}
use mathlib.Core.List.Perm
use netlab.Prelude.{
  ◌≡◌, String, Bool, true, not, some, List, [], ◌∷◌, ◌++◌, ℕ, zero, suc, ltb, length, arith, keep,
  eq_iff, some_inj, subst, Bool-cases, inl, inr,
}
use netlab.Prelude.Texts.{contains}
use netlab.Sort.{blocked, ready, skipped, rounds, dependency}

pub keep-append-keep_not-perm {ℓ} :
    {A : Type ℓ} (p : A → Bool) (xs : List A) → Perm (keep (λ x. not (p x)) xs ++ keep p xs) xs
unfolding keep
keep-append-keep_not-perm p [] = Perm.refl []
keep-append-keep_not-perm p (x ∷ xs) = elim (Bool-cases (p x)) [
  | inl held ↦ rw held (
      Perm.trans (perm_middle (keep (λ y. not (p y)) xs) (keep p xs))
        (Perm.cons x (keep-append-keep_not-perm p xs)))
  | inr free ↦ rw free (Perm.cons x (keep-append-keep_not-perm p xs))
]

pub contains-keep :
    (p : String → Bool) (s : String) (xs : List String)
    → contains s (keep p xs) ≡ true
    → (contains s xs ≡ true) × (p s ≡ true)
unfolding contains keep
contains-keep p s [] h = cc
contains-keep p s (x ∷ xs) h = ground (arith, contains-keep p s xs, eq_iff x s)

module _ (get_dependency : String → List String) where
  rounds-perm :
      (w : ℕ) (mods output out : List String)
      → rounds get_dependency w mods output ≡ some out
      → Perm (output ++ mods) out
  unfolding rounds
  rounds-perm w [] output out h =
      rw append-nil (subst (λ l. Perm output l) (some_inj h) (Perm.refl output))
  rounds-perm zero (m ∷ ms) output out h = absurd (cc h)
  rounds-perm (suc w) (m ∷ ms) output out h =
      let mods = m ∷ ms in
      let later =
        rounds-perm w (skipped get_dependency mods) (output ++ ready get_dependency mods) out h in
      let split =
        Perm.append (Perm.refl output)
          (Perm.symm (keep-append-keep_not-perm (blocked get_dependency mods) mods)) in
      Perm.trans (rw (← append_assoc) at split) later

  -- The sorted list holds the given objects, each as often as it was given.
  pub dependency-perm :
      (mods out : List String) → dependency get_dependency mods ≡ some out → Perm mods out
  unfolding dependency
  dependency-perm mods out h = elim (Bool-cases (ltb (length mods) 2)) [
    | inl short ↦ subst (λ l. Perm mods l) (some_inj (rw short at h)) (Perm.refl mods)
    | inr long ↦ rounds-perm (length mods) mods [] out (rw long at h)
  ]
