-- ===== src/Scheduler/Normalize/Range.antt =====
-- The extremes of the calculated scores, and the arithmetic of `rescale` where nothing wraps.
use native.Mathlib.Nat.{div-le_of_le-mul, zero-div, mul-le-mul_left, mul_comm, mul-zero, sub_self}
use waok8s.Prelude.{
  ℕ, ◌-◌, ◌*◌, ◌/◌, ◌^◌, ◌≤◌, ◌<◌, ◌≡◌, refl, ◌⊎◌, inl, inr, List, [], ◌∷◌, In, here, there, arith,
  if◌then◌else◌, Bool-cases, ◌==◌, div-le-div,
}
use waok8s.Prelude.Int64.{ℤ, pos, ltb_ℤ, ◌≤ℤ◌, sub64_pos, mul64_pos, quot64_pos}
use waok8s.Scheduler.Normalize.{
  NodeScore, rescale, highest_from, lowest_from, score_error, score_max,
}

pub highest_from-ge : (h : ℤ) (xs : List NodeScore) → h ≤ℤ highest_from h xs
unfolding highest_from
highest_from-ge h [] = omega arith
highest_from-ge h (x ∷ xs) = ground (arith, highest_from-ge x.score xs, highest_from-ge h xs)

pub In-highest_from :
    (h : ℤ) (xs : List NodeScore) (s : NodeScore) → In s xs → s.score ≤ℤ highest_from h xs
unfolding highest_from
In-highest_from h [] s i = elim i [ ]
In-highest_from h (x ∷ xs) s (here p) =
    rw p (ground (arith, highest_from-ge x.score xs, highest_from-ge h xs))
In-highest_from h (x ∷ xs) s (there i) =
    In-highest_from (if ltb_ℤ h x.score then x.score else h) xs s i

pub highest_from-cases :
    (h : ℤ) (xs : List NodeScore)
    → (highest_from h xs ≡ h) ⊎ ((s : NodeScore) × In s xs × (highest_from h xs ≡ s.score))
unfolding highest_from
highest_from-cases h [] = inl refl
highest_from-cases h (x ∷ xs) = elim (Bool-cases (ltb_ℤ h x.score)) [
  | inl more ↦ elim (highest_from-cases x.score xs) [
    | inl e ↦ inr (x, here refl, rw (more, highest_from) e)
    | inr (s, i, e) ↦ inr (s, there i, rw (more, highest_from) e)
  ]
  | inr less ↦ elim (highest_from-cases h xs) [
    | inl e ↦ inl (rw (less, highest_from) e)
    | inr (s, i, e) ↦ inr (s, there i, rw (less, highest_from) e)
  ]
]

pub lowest_from-le : (l : ℤ) (xs : List NodeScore) → lowest_from l xs ≤ℤ l
unfolding lowest_from
lowest_from-le l [] = omega arith
lowest_from-le l (x ∷ xs) = ground (arith, lowest_from-le x.score xs, lowest_from-le l xs)

pub In-lowest_from :
    (l : ℤ) (xs : List NodeScore) (s : NodeScore) → In s xs → lowest_from l xs ≤ℤ s.score
unfolding lowest_from
In-lowest_from l [] s i = elim i [ ]
In-lowest_from l (x ∷ xs) s (here p) =
    rw p (ground (arith, lowest_from-le x.score xs, lowest_from-le l xs))
In-lowest_from l (x ∷ xs) s (there i) =
    In-lowest_from (if ltb_ℤ x.score l then x.score else l) xs s i

pub lowest_from-cases :
    (l : ℤ) (xs : List NodeScore)
    → (lowest_from l xs ≡ l) ⊎ ((s : NodeScore) × In s xs × (lowest_from l xs ≡ s.score))
unfolding lowest_from
lowest_from-cases l [] = inl refl
lowest_from-cases l (x ∷ xs) = elim (Bool-cases (ltb_ℤ x.score l)) [
  | inl less ↦ elim (lowest_from-cases x.score xs) [
    | inl e ↦ inr (x, here refl, rw (less, lowest_from) e)
    | inr (s, i, e) ↦ inr (s, there i, rw (less, lowest_from) e)
  ]
  | inr more ↦ elim (lowest_from-cases l xs) [
    | inl e ↦ inl (rw (more, lowest_from) e)
    | inr (s, i, e) ↦ inr (s, there i, rw (more, lowest_from) e)
  ]
]

-- A number of watts that the arithmetic of `rescale` does not overflow.
abbrev pub IsWatt : ℕ → ℤ → Type 0
IsWatt top z = (n : ℕ) × (z ≡ pos n) × (n * (top - 20) < 2 ^ 63) × (n < 2 ^ 62 - 1)

-- What `Score` returns: an error mark, an overcommitment mark, or watts.
abbrev pub IsScored : ℕ → NodeScore → Type 0
IsScored top s = (s.score ≡ score_error) ⊎ (s.score ≡ score_max) ⊎ IsWatt top s.score

-- What `rescale` takes off the top never exceeds the span of scores.
drop-le : (top hi lo n : ℕ) → lo < hi → n ≤ hi → (top - 20) * (n - lo) / (hi - lo) ≤ top - 20
drop-le top hi lo n h b =
    div-le_of_le-mul (hi - lo)
      (rw (mul_comm (hi - lo) (top - 20)) (mul-le-mul_left (top - 20) (omega arith)))

-- `rescale` on natural numbers.
unfoldable pub curve : ℕ → ℕ → ℕ → ℕ → ℕ
curve top hi lo n = if hi == lo then 20 else top - (top - 20) * (n - lo) / (hi - lo)

pub rescale-curve :
    (top hi lo n : ℕ)
    → 20 ≤ top
    → top < 2 ^ 63
    → hi < 2 ^ 62
    → lo ≤ n
    → n ≤ hi
    → n * (top - 20) < 2 ^ 63
    → rescale (pos top) (pos 20) (pos hi) (pos lo) (pos n) ≡ pos (curve top hi lo n)
unfolding rescale curve
rescale-curve top hi lo n t u v a b w = ground (
  arith,
  sub64_pos top 20 t u,
  sub64_pos n lo a,
  sub64_pos hi lo,
  product_fits,
  mul64_pos (top - 20) (n - lo) product_fits,
  quot64_pos ((top - 20) * (n - lo)) (hi - lo),
  quotient_fits,
  sub64_pos top ((top - 20) * (n - lo) / (hi - lo)),
)
  where
    product_fits : (top - 20) * (n - lo) < 2 ^ 63
    product_fits = grind arith

    quotient_fits : lo < hi → (top - 20) * (n - lo) / (hi - lo) ≤ top - 20
    quotient_fits h = drop-le top hi lo n h b

pub curve_bounds :
    (top hi lo n : ℕ)
    → 20 ≤ top
    → lo ≤ n
    → n ≤ hi
    → (20 ≤ curve top hi lo n) × (curve top hi lo n ≤ top)
unfolding curve
curve_bounds top hi lo n t a b = ground (arith, drop-le top hi lo n)

pub curve_antitone : (top hi lo m n : ℕ) → lo ≤ hi → m ≤ n → curve top hi lo n ≤ curve top hi lo m
unfolding curve
curve_antitone top hi lo m n w h = ground (
  arith,
  div-le-div ((top - 20) * (m - lo)) ((top - 20) * (n - lo)) (hi - lo),
  mul-le-mul_left {m = m - lo} {n = n - lo} (top - 20),
)

-- The lowest watts get the top score.
pub curve_lowest : (top hi lo : ℕ) → lo < hi → curve top hi lo lo ≡ top
unfolding curve
curve_lowest top hi lo h = ground (arith, zero-div (hi - lo), mul-zero (top - 20), sub_self lo)
