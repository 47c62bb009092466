-- ===== src/Prelude/Distinct.antt =====
-- Lists of names without repetition, and the pigeonhole principle that bounds a search.
use Prim.Native.Nat.{◌≤◌, ◌<◌}
use Prim.Native.String.{String}
use mathlib.Core.Path.{◌≡◌, refl, ◌∙◌}
use mathlib.Core.Bool.{Bool, true, false, not, ◌&&◌}
use mathlib.Core.Logic.{inl, inr}
use mathlib.Core.List.{List, [], ◌∷◌, ◌++◌}
use native.Mathlib.Omega.{arith}
use text.Mathlib.Text.{◌==◌}
use text.Mathlib.TextEquality.{eq_iff}
use text.Mathlib.TextPositions.{eq_refl}
use netlab.Prelude.Tests.{Bool-cases, if◌then◌else◌}
use netlab.Prelude.Lists.{length, keep}
use netlab.Prelude.Texts.{
  contains, contains-append, insert_sorted, text_le, sorted, contains-insert_sorted,
  contains-sorted,
}

abbrev pub IsDistinct : List String → Type 0
IsDistinct [] = Unit
IsDistinct (x ∷ xs) = (contains x xs ≡ false) × IsDistinct xs

-- Every name of the first list stands in the second.
abbrev pub Within : List String → List String → Type 0
Within [] ys = Unit
Within (x ∷ xs) ys = (contains x ys ≡ true) × Within xs ys

-- every other name
unfoldable pub without : String → List String → List String
without s [] = []
without s (x ∷ xs) = let rest = without s xs in if x == s then rest else x ∷ rest

pub length-without : (s : String) (ys : List String) → length (without s ys) ≤ length ys
unfolding without
length-without s [] = omega arith
length-without s (y ∷ ys) = ground (arith, length-without s ys)

pub length-without-lt :
    (s : String) (ys : List String) → contains s ys ≡ true → length (without s ys) < length ys
unfolding without contains
length-without-lt s [] h = cc
length-without-lt s (y ∷ ys) h = ground (arith, length-without s ys, length-without-lt s ys)

pub contains-without :
    (s x : String) (ys : List String) → contains x (without s ys) ≡ (not (s == x) && contains x ys)
unfolding without contains
contains-without s x [] = ground arith
contains-without s x (y ∷ ys) =
    ground (arith, contains-without s x ys, eq_iff y s, eq_iff y x, eq_iff s x)

pub Within-without :
    (s : String) (xs ys : List String)
    → contains s xs ≡ false
    → Within xs ys
    → Within xs (without s ys)
unfolding contains
Within-without s [] ys h w = tt
Within-without s (x ∷ xs) ys h w = (
  ground (arith, contains-without s x ys, eq_iff s x, eq_iff x s),
  Within-without s xs ys (ground arith) w.1,
)

-- The pigeonhole principle: distinct names taken from a list are no more than the list has.
pub length-le_of_Within :
    (xs ys : List String) → IsDistinct xs → Within xs ys → length xs ≤ length ys
length-le_of_Within [] ys d w = omega arith
length-le_of_Within (x ∷ xs) ys d w = omega (
  arith,
  length-le_of_Within xs (without x ys) d.1 (Within-without x xs ys d.0 w.1),
  length-without-lt x ys w.0,
)

pub Within-append_one :
    (xs ys : List String) (s : String)
    → Within xs ys
    → contains s ys ≡ true
    → Within (xs ++ s ∷ []) ys
Within-append_one [] ys s w h = (h, tt)
Within-append_one (x ∷ xs) ys s w h = (w.0, Within-append_one xs ys s w.1 h)

pub IsDistinct-append_one :
    (xs : List String) (s : String)
    → IsDistinct xs
    → contains s xs ≡ false
    → IsDistinct (xs ++ s ∷ [])
unfolding contains
IsDistinct-append_one [] s d h = (refl, tt)
IsDistinct-append_one (x ∷ xs) s d h = (
  ground (arith, contains-append x xs (s ∷ []), eq_iff x s, eq_iff s x),
  IsDistinct-append_one xs s d.1 (ground arith),
)

Within-cons : (xs ys : List String) (y : String) → Within xs ys → Within xs (y ∷ ys)
unfolding contains
Within-cons [] ys y w = tt
Within-cons (x ∷ xs) ys y w = (ground (arith, w.0), Within-cons xs ys y w.1)

pub Within-refl : (xs : List String) → Within xs xs
unfolding contains
Within-refl [] = tt
Within-refl (x ∷ xs) = (ground (arith, eq_refl x), Within-cons xs xs x (Within-refl xs))

pub IsDistinct-without : (s : String) (xs : List String) → IsDistinct xs → IsDistinct (without s xs)
unfolding without
IsDistinct-without s [] d = tt
IsDistinct-without s (x ∷ xs) d = elim (Bool-cases (x == s)) [
  | inl same ↦ rw same (IsDistinct-without s xs d.1)
  | inr other ↦ rw other (ground (arith, contains-without s x xs, d.0), IsDistinct-without s xs d.1)
]

pub Within-contains :
    (xs ys : List String)
    → ((s : String) → contains s xs ≡ true → contains s ys ≡ true)
    → Within xs ys
unfolding contains
Within-contains [] ys h = tt
Within-contains (x ∷ xs) ys h =
    (h x (ground (arith, eq_refl x)), Within-contains xs ys (λ s c. h s (ground (arith, c))))

contains-keep-false :
    (p : String → Bool) (s : String) (xs : List String)
    → contains s xs ≡ false
    → contains s (keep p xs) ≡ false
unfolding contains keep
contains-keep-false p s [] h = refl
contains-keep-false p s (x ∷ xs) h = ground (arith, contains-keep-false p s xs)

pub IsDistinct-keep :
    (p : String → Bool) (xs : List String) → IsDistinct xs → IsDistinct (keep p xs)
unfolding keep
IsDistinct-keep p [] d = tt
IsDistinct-keep p (x ∷ xs) d = elim (Bool-cases (p x)) [
  | inl held ↦ rw held (contains-keep-false p x xs d.0, IsDistinct-keep p xs d.1)
  | inr dropped ↦ rw dropped (IsDistinct-keep p xs d.1)
]

IsDistinct-insert_sorted :
    (s : String) (xs : List String)
    → contains s xs ≡ false
    → IsDistinct xs
    → IsDistinct (insert_sorted s xs)
unfolding insert_sorted contains
IsDistinct-insert_sorted s [] h d = (refl, tt)
IsDistinct-insert_sorted s (x ∷ xs) h d = elim (Bool-cases (text_le s x)) [
  | inl first ↦ rw first (h, d)
  | inr later ↦ rw later (
    ground (arith, d.0, contains-insert_sorted x s xs, eq_iff s x, eq_iff x s),
    IsDistinct-insert_sorted s xs (ground arith) d.1,
  )
]

pub IsDistinct-sorted : (xs : List String) → IsDistinct xs → IsDistinct (sorted xs)
unfolding sorted
IsDistinct-sorted [] d = tt
IsDistinct-sorted (x ∷ xs) d =
    IsDistinct-insert_sorted x (sorted xs) (contains-sorted x xs ∙ d.0) (IsDistinct-sorted xs d.1)
