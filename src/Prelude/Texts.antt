-- ===== src/Prelude/Texts.antt =====
-- Lists of names: `in`, and the equality of texts as `ground` reads it.
use Prim.Native.Char.{code}
use Prim.Native.String.{String}
use mathlib.Core.Path.{◌≡◌, refl}
use mathlib.Core.Bool.{Bool, true, false, ◌&&◌, ◌||◌}
use mathlib.Core.Logic.{◌⊎◌, inl, inr}
use mathlib.Core.List.{List, [], ◌∷◌, ◌++◌}
use native.Mathlib.Omega.{arith}
use netlab.Prelude.Lists.{any}
use text.Mathlib.TextEquality.{eq_iff}
use text.Mathlib.Text.{◌==◌}
use netlab.Prelude.Tests.{Bool-cases, if◌then◌else◌, ltb, eqb}

-- s in xs
unfoldable pub contains : String → List String → Bool
contains s [] = false
contains s (x ∷ xs) = x == s || contains s xs

pub contains-append :
    (s : String) (xs ys : List String) → contains s (xs ++ ys) ≡ (contains s xs || contains s ys)
unfolding contains
contains-append s [] ys = refl
contains-append s (x ∷ xs) ys = ground (arith, contains-append s xs ys)

-- a <= b, as Python compares texts: code point by code point
unfoldable pub text_le : String → String → Bool
text_le String.[] b = true
text_le (String.◌∷◌ c s) String.[] = false
text_le (String.◌∷◌ c s) (String.◌∷◌ d t) =
    let rest = text_le s t in
    if ltb (code c) (code d) then true else (eqb (code c) (code d) && rest)

unfoldable pub insert_sorted : String → List String → List String
insert_sorted s [] = s ∷ []
insert_sorted s (x ∷ xs) =
    let rest = insert_sorted s xs in if text_le s x then s ∷ x ∷ xs else x ∷ rest

-- sorted(xs)
unfoldable pub sorted : List String → List String
unfolding insert_sorted text_le
sorted [] = []
sorted (x ∷ xs) = insert_sorted x (sorted xs)

pub contains-insert_sorted :
    (s x : String) (xs : List String) → contains s (insert_sorted x xs) ≡ (x == s || contains s xs)
unfolding contains insert_sorted
contains-insert_sorted s x [] = refl
contains-insert_sorted s x (y ∷ ys) = ground (arith, contains-insert_sorted s x ys)

pub contains-sorted : (s : String) (xs : List String) → contains s (sorted xs) ≡ contains s xs
unfolding contains sorted
contains-sorted s [] = refl
contains-sorted s (x ∷ xs) =
    ground (arith, contains-sorted s xs, contains-insert_sorted s x (sorted xs))

-- Where no element passes the test, each one fails it.
pub any_none :
    (p : String → Bool) (xs : List String) (s : String)
    → any p xs ≡ false
    → contains s xs ≡ true
    → p s ≡ false
unfolding any contains
any_none p [] s h c = absurd (cc c)
any_none p (x ∷ xs) s h c = ground (arith, any_none p xs s, eq_iff x s)

pub one_of :
    (s x : String) (xs : List String)
    → contains s (x ∷ xs) ≡ true
    → (x ≡ s) ⊎ (contains s xs ≡ true)
unfolding contains
one_of s x xs h = elim (Bool-cases (x == s)) [
  | inl same ↦ inl ((eq_iff x s).0 same)
  | inr other ↦ inr (rw other at h)
]
