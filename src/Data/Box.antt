-- ===== src/Data/Box.antt =====
-- The values of a topology: what YAML gives Python, less floating-point numbers.
use netlab.Prelude.{
  ℕ, zero, String, ◌≡◌, refl, Bool, true, false, not, ◌&&◌, ◌||◌, Option, none, some, List, [], ◌∷◌,
  arith, ◌==◌, eq_iff, if◌then◌else◌, eqb, is_some,
}
use netlab.Prelude.Texts.{contains}

-- Python's int; `negsuc n` is -(n + 1)
pub data ℤ : Type 0 where
  pos : ℕ → ℤ
  negsuc : ℕ → ℤ

mutual
  pub data Value : Type 0 where
    null : Value
    bool : Bool → Value
    int : ℤ → Value
    str : String → Value
    list : Items → Value
    dict : Fields → Value

  pub data Items : Type 0 where
    nil : Items
    cons : Value → Items → Items

  pub data Fields : Type 0 where
    end : Fields
    entry : String → Value → Fields → Fields

-- b.get(k)
unfoldable pub get : Fields → String → Option Value
get end k = none
get (entry j v b) k = if j == k then some v else get b k

-- k in b
unfoldable pub has : Fields → String → Bool
unfolding get
has b k = is_some (get b k)

-- b[k] = v: an old key keeps its place, a new one goes to the end
unfoldable pub put : Fields → String → Value → Fields
put end k v = entry k v end
put (entry j w b) k v = let rest = put b k v in if j == k then entry j v b else entry j w rest

-- b.pop(k, None)
unfoldable pub pop : Fields → String → Fields
pop end k = end
pop (entry j w b) k = let rest = pop b k in if j == k then rest else entry j w rest

unfoldable pub keys : Fields → List String
keys end = []
keys (entry k v b) = k ∷ keys b

unfoldable pub values : Fields → List Value
values end = []
values (entry k v b) = v ∷ values b

unfoldable pub elems : Items → List Value
elems nil = []
elems (cons v vs) = v ∷ elems vs

unfoldable pub items : List Value → Items
items [] = nil
items (v ∷ vs) = cons v (items vs)

abbrev sign_eq : ℤ → ℤ → Bool
sign_eq (pos m) (pos n) = eqb m n
sign_eq (negsuc m) (negsuc n) = eqb m n
sign_eq _ _ = false

-- True == 1 and False == 0
abbrev truth : Bool → ℤ
truth true = pos 1
truth false = pos 0

abbrev same_size : Fields → Fields → Bool
same_size end end = true
same_size (entry _ _ b) (entry _ _ c) = same_size b c
same_size _ _ = false

abbrev holds_at : (Value → Bool) → Option Value → Bool
holds_at test none = false
holds_at test (some w) = test w

-- Python's `==`: dictionaries are compared whatever their order
unfoldable mutual
  unfolding get

  pub value_eq : Value → Value → Bool
  value_eq null null = true
  value_eq (bool a) (bool b) = sign_eq (truth a) (truth b)
  value_eq (bool a) (int n) = sign_eq (truth a) n
  value_eq (int m) (bool b) = sign_eq m (truth b)
  value_eq (int m) (int n) = sign_eq m n
  value_eq (str s) (str t) = s == t
  value_eq (list xs) (list ys) = items_eq xs ys
  value_eq (dict b) (dict c) = same_size b c && fields_within b c
  value_eq _ _ = false

  items_eq : Items → Items → Bool
  items_eq nil nil = true
  items_eq (cons x xs) (cons y ys) = value_eq x y && items_eq xs ys
  items_eq _ _ = false

  fields_within : Fields → Fields → Bool
  fields_within end c = true
  fields_within (entry k v b) c = holds_at (value_eq v) (get c k) && fields_within b c

-- x in xs
unfoldable pub is_in : Value → List Value → Bool
is_in x [] = false
is_in x (y ∷ ys) = value_eq y x || is_in x ys

-- bool(v)
unfoldable pub truthy : Value → Bool
truthy null = false
truthy (bool b) = b
truthy (int (pos zero)) = false
truthy (int _) = true
truthy (str s) = not (s == "")
truthy (list nil) = false
truthy (list (cons _ _)) = true
truthy (dict end) = false
truthy (dict (entry _ _ _)) = true

pub get-put :
    (b : Fields) (k j : String) (v : Value)
    → get (put b k v) j ≡ (if k == j then some v else get b j)
unfolding get put
get-put end k j v = refl
get-put (entry i w b) k j v = ground (arith, get-put b k j v, eq_iff i k, eq_iff i j, eq_iff k j)

pub get-pop : (b : Fields) (k j : String) → get (pop b k) j ≡ (if k == j then none else get b j)
unfolding get pop
get-pop end k j = ground arith
get-pop (entry i w b) k j = ground (arith, get-pop b k j, eq_iff i k, eq_iff i j, eq_iff k j)

pub contains-keys : (b : Fields) (k : String) → contains k (keys b) ≡ has b k
unfolding keys has contains
contains-keys end k = refl
contains-keys (entry j v b) k = ground (arith, contains-keys b k)
