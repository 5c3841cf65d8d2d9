-- ===== src/Screening/Fraction.antt =====
-- Fractions of numbers, compared by cross multiplication, and the percentage that Python's `round`
-- makes of one. The double that the code computes orders two fractions of less than 2 ^ 26 parts as they
-- are ordered. Its product with 100 is on the same side of a half as the exact one, unless that is a half
-- itself; there the two roundings of doubles are computed.
mod Tests
use native.Mathlib.Nat.{mod-lt, div-add-mod}
use proofrail_evidence_api.Prelude.{
  ap, ◌∙◌, suc, Bool-cases, inl, inr, ◌||◌, ◌&&◌, ℕ, zero, suc, ◌+◌, ◌-◌, ◌*◌, ◌/◌, ◌%◌, ◌≤◌, ◌<◌,
  ◌≡◌, ◌^◌, not, refl, Bool, true, false, arith, ltb, leb, ◌==◌, if◌then◌else◌, Bool-cases, inl,
  inr,
}

pub record Fraction : Type 0 where
  pub num : ℕ
  pub den : ℕ

-- `a > b`
unfoldable pub gt : Fraction → Fraction → Bool
gt a b = ltb (b.num * a.den) (a.num * b.den)

-- the quotient rounded to a number, a half to the even neighbour
unfoldable pub nearest : ℕ → ℕ → ℕ
nearest n d =
    let q = n / d in
    let r = n % d in if ltb (2 * r) d || (2 * r == d && q % 2 == 0) then q else suc q

-- the least exponent from `e` on, at most `fuel` further, that gives n / d its 53 bits
unfoldable pub exponent : ℕ → ℕ → ℕ → ℕ → ℕ
exponent zero n d e = e
exponent (suc fuel) n d e =
    let later = exponent fuel n d (e + 1) in if leb (2 ^ 52 * d) (n * 2 ^ e) then e else later

-- the number of low bits that a double of this mantissa drops
unfoldable pub excess : ℕ → ℕ → ℕ → ℕ
excess zero m t = t
excess (suc fuel) m t =
    let later = excess fuel m (t + 1) in if ltb m (2 ^ (53 + t)) then t else later

-- The percentage q + 1/2 as it is computed: the double next to (2 q + 1) / 200, its product with 100
-- rounded to a double, and that rounded to a number. Is the result above q? A quotient between
-- 1 / 200 and 1 has at most 8 leading zeros, and the product of its mantissa with 100 at most 60 bits.
unfoldable pub tie_up : ℕ → Bool
unfolding nearest exponent excess
tie_up q =
    let n = 2 * q + 1 in
    let e = exponent 8 n 200 53 in
    let product = 100 * nearest (n * 2 ^ e) 200 in
    let t = excess 8 product 0 in
    let double = 2 * (nearest product (2 ^ t) * 2 ^ t) in
    ltb (n * 2 ^ e) double || (double == n * 2 ^ e && q % 2 == 1)

-- `int(round(a * 100))`
unfoldable pub round_percent : Fraction → ℕ
round_percent a =
    let q = 100 * a.num / a.den in
    let r = 100 * a.num % a.den in
    if ltb (2 * r) a.den || (2 * r == a.den && not (tie_up q)) then q else suc q

-- 89.5 percent is rounded up
tie_up_at : tie_up 89 ≡ true
unfolding tie_up
tie_up_at = refl

pub gt_asymmetric : (a b : Fraction) → gt a b ≡ true → gt b a ≡ false
unfolding gt
gt_asymmetric a b h = ground (arith, h)

mul_mono : (k a b : ℕ) → a ≤ b → a * k ≤ b * k
mul_mono zero a b h = omega arith
mul_mono (suc k) a b h = omega (arith, h, mul_mono k a b h)

-- at least 89.5 parts of a hundred
unfoldable pub close : Fraction → Bool
close a = leb (179 * a.den) (200 * a.num)

cancel : (k a b : ℕ) → 0 < k → a * k ≤ b * k → a ≤ b
cancel k a b pos h = elim (Bool-cases (leb a b)) [
  | inl e ↦ ground (arith, e)
  | inr e ↦ absurd (omega (arith, h, pos, mul_mono k (suc b) a (ground (arith, e))))
]

-- a fraction no less than a close one is close
pub close_mono : (a b : Fraction) → 0 < a.den → gt a b ≡ false → close a ≡ true → close b ≡ true
unfolding gt close
close_mono a b pos h k =
    let le : a.num * b.den ≤ b.num * a.den = ground (arith, h) in
    let at : 179 * a.den ≤ 200 * a.num = ground (arith, k) in
    let scaled = mul_mono b.den (179 * a.den) (200 * a.num) at in
    let all : (179 * b.den) * a.den ≤ (200 * b.num) * a.den = omega (arith, le, scaled) in
    let least = cancel a.den (179 * b.den) (200 * b.num) pos all in ground (arith, least)

euclid : (n d : ℕ) → n ≡ n / d * d + n % d
euclid n d = omega (arith, div-add-mod n d)

-- the parts of the division by the denominator, of which the rounded percentage is made
round_parts-close :
    (q r d n : ℕ)
    → 100 * n ≡ q * d + r
    → r < d
    → leb 90 (if ltb (2 * r) d || (2 * r == d && not (tie_up q)) then q else suc q)
      ≡ leb (179 * d) (200 * n)
round_parts-close q r d n e small = elim (Bool-cases (ltb q 89)) [
  | inl low ↦
      let above = mul_mono d (suc q) 89 (ground (arith, low)) in
      ground (arith, low, above, e, small)
  | inr high ↦ elim (Bool-cases (q == 89)) [
    | inl same ↦
        let at : q ≡ 89 = ground (arith, same) in
        let parts : 100 * n ≡ 89 * d + r = e ∙ ap (λ t. t * d + r) at in
        rw at (ground (arith, parts, small, tie_up_at))
    | inr other ↦
        let below = mul_mono d 90 q (ground (arith, high, other)) in
        ground (arith, high, other, below, e, small)
  ]
]

-- the percentage reaches 90 exactly from 89.5 parts of a hundred on
pub round_percent-close : (a : Fraction) → 0 < a.den → leb 90 (round_percent a) ≡ close a
unfolding round_percent close
round_percent-close a pos =
    round_parts-close (100 * a.num / a.den) (100 * a.num % a.den) a.den a.num
      (euclid (100 * a.num) a.den) (mod-lt (100 * a.num) pos)

round_parts_le :
    (q r d n : ℕ)
    → 100 * n ≡ q * d + r
    → n ≤ d
    → r < d
    → (if ltb (2 * r) d || (2 * r == d && not (tie_up q)) then q else suc q) ≤ 100
round_parts_le q r d n e le small = elim (Bool-cases (ltb q 100)) [
  | inl low ↦ ground (arith, low)
  | inr high ↦
      let below = mul_mono d 100 q (ground (arith, high)) in
      let above : q ≤ 100 = cancel d q 100 (omega (arith, small)) (omega (arith, e, le)) in
      let none_left : r ≡ 0 = omega (arith, e, le, below) in ground (arith, above, none_left, small)
]

-- a fraction of at most one is at most 100 percent
pub round_percent_le : (a : Fraction) → 0 < a.den → a.num ≤ a.den → round_percent a ≤ 100
unfolding round_percent
round_percent_le a pos le =
    round_parts_le (100 * a.num / a.den) (100 * a.num % a.den) a.den a.num
      (euclid (100 * a.num) a.den) le (mod-lt (100 * a.num) pos)
