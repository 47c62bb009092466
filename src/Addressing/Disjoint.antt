-- ===== src/Addressing/Disjoint.antt =====
-- The subnets of one generator lie inside its network and do not overlap.
use Prim.Native.Nat.{◌^◌}
use native.Mathlib.Nat.{add-zero, pow-suc, pow-zero, mul_assoc, mul-le-mul_right}
use netlab.Prelude.{ℕ, zero, suc, ◌+◌, ◌-◌, ◌*◌, ◌≤◌, ◌<◌, ◌≡◌, ◌⊎◌, sym, ◌∙◌, ap, arith}
use netlab.Addressing.Networks.{Net, size, Subnets, nth}

pow-add : (a b : ℕ) → 2 ^ (a + b) ≡ 2 ^ a * 2 ^ b
pow-add a zero = rw (add-zero, pow-zero) (omega arith)
pow-add a (suc b) =
    ap (λ (n : ℕ). 2 ^ n) (let e : a + suc b ≡ suc (a + b) = omega arith in e)
    ∙ pow-suc 2 (a + b)
    ∙ ap (λ (n : ℕ). n * 2) (pow-add a b)
    ∙ mul_assoc (2 ^ a) (2 ^ b) 2
    ∙ ap (λ (n : ℕ). 2 ^ a * n) (sym (pow-suc 2 b))

-- The address ranges do not overlap.
abbrev pub Disjoint : Net → Net → Type 0
Disjoint x y = (x.address + size x ≤ y.address) ⊎ (y.address + size y ≤ x.address)

-- The range of the first network lies in that of the second.
abbrev pub Inside : Net → Net → Type 0
Inside x y = (y.address ≤ x.address) × (x.address + size x ≤ y.address + size y)

step_le : (i j s : ℕ) → i < j → i * s + s ≤ j * s
step_le i j s h = omega (arith, mul-le-mul_right {m = suc i} {n = j} s h)

pub nth-before :
    (g : Subnets) (i j : ℕ) → i < j → (nth g i).address + size (nth g i) ≤ (nth g j).address
nth-before g i j h = omega (arith, step_le i j (2 ^ (g.base.bits - g.plen)) h)

pub nth-Inside :
    (g : Subnets) (i : ℕ)
    → g.base.prefixlen ≤ g.plen
    → g.plen ≤ g.base.bits
    → i < 2 ^ (g.plen - g.base.prefixlen)
    → Inside (nth g i) g.base
nth-Inside g i a b h =
    let s = 2 ^ (g.base.bits - g.plen) in
    let k = 2 ^ (g.plen - g.base.prefixlen) in
    let whole : 2 ^ (g.base.bits - g.base.prefixlen) ≡ k * s =
      ap (λ (n : ℕ). 2 ^ n)
        (let e : g.base.bits - g.base.prefixlen
              ≡ (g.plen - g.base.prefixlen) + (g.base.bits - g.plen) =
            omega arith in
          e)
      ∙ pow-add (g.plen - g.base.prefixlen) (g.base.bits - g.plen) in
    (omega arith, omega (arith, step_le i k s h, whole))
