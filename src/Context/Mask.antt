-- ===== src/Context/Mask.antt =====
-- src/context/stack.c: `gth_is_power_of_two` and `gth_align_up` at powers of two.
use Prim.Native.Nat.{digits, min, bit_and-bitwise}
use gthreads.Base.{
  ℕ, zero, suc, ◌+◌, ◌-◌, ◌*◌, ◌/◌, ◌%◌, ◌<◌, ◌≤◌, ◌≡◌, refl, sym, ap, ap₂, ◌∙◌, subst, true, arith,
  bit_and, u64,
}
use gthreads.Context.{is_power_of_two, align_up}

-- 2 ^ k, and k ones.
abbrev pub pow2 : ℕ → ℕ
pow2 zero = 1
pow2 (suc k) = 2 * pow2 k

abbrev ones : ℕ → ℕ
ones zero = 0
ones (suc k) = 1 + 2 * ones k

-- `m` ones in front of `k` zeros.
abbrev high : ℕ → ℕ → ℕ
high zero m = ones m
high (suc k) m = 2 * high k m

-- The lowest `n` steps of the native operation.
abbrev and_in : ℕ → ℕ → ℕ → ℕ
and_in n a b = digits (λ b. zero) min n a b

pub positive-pow2 : (k : ℕ) → 0 < pow2 k
positive-pow2 zero = omega arith
positive-pow2 (suc k) = omega (arith, positive-pow2 k)

ones-pow2 : (k : ℕ) → ones k + 1 ≡ pow2 k
ones-pow2 zero = refl
ones-pow2 (suc k) = omega (arith, ones-pow2 k)

high-pow2 : (k m : ℕ) → high k m + pow2 k ≡ pow2 k * pow2 m
high-pow2 zero m = omega (arith, ones-pow2 m)
high-pow2 (suc k) m = grind (arith, high-pow2 k m)

and_in-zero : (n b : ℕ) → and_in n 0 b ≡ 0
and_in-zero zero b = refl
and_in-zero (suc n) b = refl

-- One digit at a time, whatever the first number is.
and_in-suc : (n a b : ℕ) → and_in (suc n) a b ≡ and_in n (a / 2) (b / 2) * 2 + min (a % 2) (b % 2)
and_in-suc n zero b = omega (arith, and_in-zero n (b / 2))
and_in-suc n (suc a) b = refl

-- Ones keep every digit.
and_in-ones : (n a m : ℕ) → a ≤ n → a < pow2 m → and_in n a (ones m) ≡ a
and_in-ones n zero m h lt = and_in-zero n (ones m)
and_in-ones zero (suc a) m h lt = absurd (omega arith)
and_in-ones (suc n) (suc a) zero h lt = absurd (omega arith)
and_in-ones (suc n) (suc a) (suc m) h lt =
    let ih = and_in-ones n (suc a / 2) m (omega arith) (omega arith) in
    let half : (1 + 2 * ones m) / 2 ≡ ones m = omega arith in
    let odd : (1 + 2 * ones m) % 2 ≡ 1 = omega arith in
    ap₂ (λ x y. and_in n (suc a / 2) x * 2 + min (suc a % 2) y) half odd
    ∙ ap (λ x. x * 2 + min (suc a % 2) 1) ih
    ∙ omega arith

-- A power of two has no digit in common with the ones below it.
and_in-pow2 : (n k : ℕ) → pow2 k ≤ n → and_in n (pow2 k) (ones k) ≡ 0
and_in-pow2 zero k h = absurd (omega (arith, positive-pow2 k))
and_in-pow2 (suc n) zero h = omega (arith, and_in-zero n 0)
and_in-pow2 (suc n) (suc k) h =
    let ih = and_in-pow2 n k (omega (arith, positive-pow2 k)) in
    let half : 2 * pow2 k / 2 ≡ pow2 k = omega arith in
    let half' : (1 + 2 * ones k) / 2 ≡ ones k = omega arith in
    and_in-suc n (2 * pow2 k) (1 + 2 * ones k)
    ∙ ap₂ (λ x y. and_in n x y * 2 + min (2 * pow2 k % 2) ((1 + 2 * ones k) % 2)) half half'
    ∙ omega (arith, ih)

-- The multiple of `p` at or below `v`.
pub record Floor (p v r : ℕ) : Type 0 where
  pub quotient : ℕ
  pub multiple : r ≡ quotient * p
  pub below : r ≤ v
  pub close : v < r + p

-- Zeros at the low end round down.
and_in-high : (n a k m : ℕ) → a ≤ n → a < pow2 k * pow2 m → Floor (pow2 k) a (and_in n a (high k m))
and_in-high n a zero m h lt =
    let e = and_in-ones n a m h (omega arith) in
    record {
      quotient = a;
      multiple = omega (arith, e);
      below = omega (arith, e);
      close = omega (arith, e);
    }
and_in-high zero a (suc k) m h lt = record {
  quotient = 0;
  multiple = omega arith;
  below = omega arith;
  close = omega (arith, positive-pow2 k);
}
and_in-high (suc n) a (suc k) m h lt =
    let small : a / 2 < pow2 k * pow2 m = grind arith in
    let f = and_in-high n (a / 2) k m (omega arith) small in
    let half : 2 * high k m / 2 ≡ high k m = omega arith in
    let e : and_in (suc n) a (2 * high k m) ≡ and_in n (a / 2) (high k m) * 2 =
      and_in-suc n a (2 * high k m)
      ∙ ap (λ x. and_in n (a / 2) x * 2 + min (a % 2) (2 * high k m % 2)) half
      ∙ omega arith in
    record {
      quotient = f.quotient;
      multiple = e ∙ grind (arith, f.multiple);
      below = omega (arith, e, f.below);
      close = omega (arith, e, f.close);
    }

-- The test accepts every power of two.
pub is_power_of_two-pow2 : (k : ℕ) → is_power_of_two (pow2 k) ≡ true
unfolding is_power_of_two
is_power_of_two-pow2 k =
    let low : pow2 k - 1 ≡ ones k = omega (arith, ones-pow2 k) in
    let e : bit_and (pow2 k) (pow2 k - 1) ≡ 0 =
      ap (bit_and (pow2 k)) low
      ∙ (λ i. bit_and-bitwise (pow2 k) (ones k) i)
      ∙ and_in-pow2 (pow2 k) k (omega arith) in
    ground (arith, e, positive-pow2 k)

pow2-add : (k m : ℕ) → pow2 (k + m) ≡ pow2 k * pow2 m
pow2-add zero m = ap pow2 {x = zero + m} {y = m} (omega arith) ∙ omega arith
pow2-add (suc k) m =
    ap pow2 {x = suc k + m} {y = suc (k + m)} (omega arith) ∙ grind (arith, pow2-add k m)

pub pow2-le : (k : ℕ) → k < 32 → pow2 k ≤ 2147483648
pow2-le k h =
    let e = ap pow2 {x = k + (31 - k)} {y = 31} (omega arith) in
    let p : pow2 k * pow2 (31 - k) ≡ 2147483648 = sym (pow2-add k (31 - k)) ∙ e in
    let q = positive-pow2 (31 - k) in grind (arith, p, q)

-- Rounding up to a multiple of a power of two, where 64 bits are enough.
pub align_up-Floor :
    (value k : ℕ)
    → k < 32
    → value + pow2 k < 18446744073709551616
    → Floor (pow2 k) (value + pow2 k - 1) (align_up value (pow2 k))
unfolding align_up
align_up-Floor value k small fits =
    let m = 64 - k in
    let whole : pow2 k * pow2 m ≡ 18446744073709551616 =
      sym (pow2-add k m) ∙ ap pow2 {x = k + m} {y = 64} (omega arith) in
    let mask : 18446744073709551615 - (pow2 k - 1) ≡ high k m =
      omega (arith, high-pow2 k m ∙ whole, positive-pow2 k) in
    let v : u64 (value + pow2 k - 1) ≡ value + pow2 k - 1 = omega arith in
    let a = value + pow2 k - 1 in
    subst (Floor (pow2 k) a) (sym (ap₂ bit_and v mask ∙ (λ i. bit_and-bitwise a (high k m) i)))
      (and_in-high a a k m (omega arith) (subst (λ x. a < x) (sym whole) (omega arith)))
