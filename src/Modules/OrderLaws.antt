-- ===== src/Modules/OrderLaws.antt =====
-- sort_module_list: the order of the modules, and which of them are there
use netlab.Prelude.{
  ◌≤◌, String, ◌≡◌, refl, ap, subst, ◌∙◌, Bool, true, false, ◌||◌, some, List, [], ◌∷◌, ◌++◌, arith,
  sym, any, ◌&&◌, ◌==◌, keep, length,
}
use netlab.Prelude.Texts.{contains, contains-append, any_none}
use mathlib.Core.Bool.{Bool-set}
use mathlib.Core.List.{Perm, append-nil, foldr}
use mathlib.Core.List.Perm
use netlab.Sort.Order.{NoneLater, dependency-NoneLater}
use netlab.Sort.Passes.{dependency-perm}
use netlab.Modules.Attributes.{inner_box, text_list}
use netlab.Modules.AttributeLaws.{contains-keep}
use netlab.Data.{Fields, get, has}
use netlab.Modules.Usage.{module_order, sort_module_list}

names_or : String → String → Bool → Bool
names_or k x b = x == k || b

names_or_swap :
    (k x y : String) (b : Bool) → names_or k x (names_or k y b) ≡ names_or k y (names_or k x b)
unfolding names_or
names_or_swap k x y b = ground arith

contains-foldr : (k : String) (zs : List String) → contains k zs ≡ foldr (names_or k) false zs
unfolding contains names_or
contains-foldr k [] = refl
contains-foldr k (z ∷ zs) = ap (λ b. z == k || b) (contains-foldr k zs)

contains-Perm : (xs ys : List String) (k : String) → Perm xs ys → contains k xs ≡ contains k ys
contains-Perm xs ys k p =
    contains-foldr k xs
    ∙ Perm.foldr-eq Bool-set (names_or k) (names_or_swap k) {l₁ = xs} {l₂ = ys} p false
    ∙ sym (contains-foldr k ys)

-- The module `m` needs `r`: its definition lists it under `requires`, or under the secondary order.
abbrev pub needs : Fields → String → String → String → Bool
needs mod_params secondary_sort m r =
    let definition = inner_box (get mod_params m) in
    contains r (text_list (get definition "requires"))
    || contains r (text_list (get definition secondary_sort))

NoneLater-split :
    (dep : String → List String) (before after : List String) (m : String)
    → NoneLater dep (before ++ (m ∷ after)) []
    → any (λ r. contains r ((m ∷ after) ++ [])) (dep m) ≡ false
NoneLater-split dep [] after m h = h.0
NoneLater-split dep (x ∷ before) after m h = NoneLater-split dep before after m h.1

contains-module_order :
    (mod_params : Fields) (secondary_sort m r : String)
    → contains r (module_order mod_params secondary_sort m) ≡ needs mod_params secondary_sort m r
unfolding module_order
contains-module_order mod_params secondary_sort m r =
    let definition = inner_box (get mod_params m) in
    contains-append r (text_list (get definition "requires"))
      (text_list (get definition secondary_sort))

pub sort_module_list_order :
    (mods out before after : List String) (mod_params : Fields) (secondary_sort m r k : String)
    → 2 ≤ length (keep (λ m. has mod_params m) mods)
    → sort_module_list mods mod_params secondary_sort ≡ some out
    → out ≡ before ++ (m ∷ after)
    → needs mod_params secondary_sort m r ≡ true
    → (contains r (m ∷ after) ≡ false) × (contains k out ≡ (has mod_params k && contains k mods))
unfolding sort_module_list
sort_module_list_order mods out before after mod_params secondary_sort m r k l h split need =
    let known = keep (λ x. has mod_params x) mods in
    let dep = module_order mod_params secondary_sort in
    let ordered = dependency-NoneLater dep known out l h in
    let none_needed =
      NoneLater-split dep before after m (subst (λ x. NoneLater dep x []) split ordered) in
    (
      ap (contains r) (sym (append-nil (m ∷ after)))
          ∙ any_none (λ x. contains x ((m ∷ after) ++ [])) (dep m) r none_needed
              (contains-module_order mod_params secondary_sort m r ∙ need),
      sym (contains-Perm known out k (dependency-perm dep known out h))
          ∙ contains-keep (λ x. has mod_params x) k mods,
    )
