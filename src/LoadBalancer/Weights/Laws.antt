-- ===== src/LoadBalancer/Weights/Laws.antt =====
-- What the weights promise: a range, the top weight for the least watts, and an order.
use waok8s.Prelude.{
  ℕ, ◌+◌, ◌-◌, ◌^◌, ◌≤◌, ◌<◌, ◌≡◌, refl, sym, ap, ◌∙◌, subst, ◌⊎◌, inl, inr, false, [], ◌∷◌, Text,
  Dict, In, here, there, if◌then◌else◌, arith, Bool-cases,
}
use waok8s.Prelude.Int64.{min_ℤ, max_ℤ, ℤ, pos, negsuc, ltb_ℤ, ◌≤ℤ◌, add64, add64_pos, max_int64}
use waok8s.Prelude.Float.{Floats}
use waok8s.LoadBalancer.Weights.{
  shift_watts, min_watt, score_max, score_min, weight, weights, normalize_scores,
}

-- Properties of IEEE 754 binary64 on positive integers below 2 ^ 63, on numbers from 0 to 1, and on
-- numbers from 0 to 100: a quotient by a number that is no less lies from 0 to 1, and falls as its
-- divisor grows; multiplication by 100 keeps the order of numbers from 0 to 1 and leaves them from 0 to
-- 100; there, rounding to an integer keeps the order; a number divided by itself is 1, and 100 * 1
-- rounds to 100.
pub record IsRounded (fl : Floats) : Type 1 where
  pub lef : fl.F → fl.F → Type 0
  pub div_antitone :
      (m a b : ℕ)
      → 0 < m
      → 0 < a
      → a ≤ b
      → b < 2 ^ 63
      → lef
          (fl.div (fl.of_int (pos m)) (fl.of_int (pos b)))
          (fl.div (fl.of_int (pos m)) (fl.of_int (pos a)))
  pub div_unit :
      (m a : ℕ)
      → 0 < m
      → m ≤ a
      → a < 2 ^ 63
      → lef (fl.of_int (pos 0)) (fl.div (fl.of_int (pos m)) (fl.of_int (pos a)))
        × lef (fl.div (fl.of_int (pos m)) (fl.of_int (pos a))) (fl.of_int (pos 1))
  pub mul_mono :
      (x y : fl.F)
      → lef (fl.of_int (pos 0)) x
      → lef x y
      → lef y (fl.of_int (pos 1))
      → lef (fl.mul (fl.of_int (pos 100)) x) (fl.mul (fl.of_int (pos 100)) y)
  pub mul_percent :
      (x : fl.F)
      → lef (fl.of_int (pos 0)) x
      → lef x (fl.of_int (pos 1))
      → lef (fl.of_int (pos 0)) (fl.mul (fl.of_int (pos 100)) x)
        × lef (fl.mul (fl.of_int (pos 100)) x) (fl.of_int (pos 100))
  pub round_mono :
      (x y : fl.F)
      → lef (fl.of_int (pos 0)) x
      → lef x y
      → lef y (fl.of_int (pos 100))
      → fl.to_int (fl.round x) ≤ℤ fl.to_int (fl.round y)
  pub div_self :
      (m : ℕ)
      → 0 < m
      → m < 2 ^ 63
      → fl.div (fl.of_int (pos m)) (fl.of_int (pos m)) ≡ fl.of_int (pos 1)
  pub hundred : fl.to_int (fl.round (fl.mul (fl.of_int (pos 100)) (fl.of_int (pos 1)))) ≡ pos 100

clamp_range : (z : ℤ) → (n : ℕ) × (max_ℤ score_min (min_ℤ score_max z) ≡ pos n) × (n ≤ 100)
clamp_range (pos n) = elim (Bool-cases (ltb_ℤ (pos n) (pos 100))) [
  | inl e ↦ (n, ground arith, ground arith)
  | inr e ↦ (100, ground arith, omega arith)
]
clamp_range (negsuc n) = (0, ground arith, omega arith)

clamp_mono :
    (a b : ℤ) → a ≤ℤ b → max_ℤ score_min (min_ℤ score_max a) ≤ℤ max_ℤ score_min (min_ℤ score_max b)
clamp_mono a b h = ground arith

min_watt-le : (m : ℤ) (d : Dict ℤ) → min_watt m d ≤ℤ m
unfolding min_watt
min_watt-le m [] = omega arith
min_watt-le m ((ip, w) ∷ d) = ground (arith, min_watt-le w d, min_watt-le m d)

In-min_watt : (m : ℤ) (d : Dict ℤ) (ip : Text) (w : ℤ) → In (ip, w) d → min_watt m d ≤ℤ w
unfolding min_watt
In-min_watt m [] ip w i = elim i [ ]
In-min_watt m ((jp, v) ∷ d) ip w (here e) =
    rw (ap (λ (x : Text × ℤ). x.1) e) (ground (arith, min_watt-le v d, min_watt-le m d))
In-min_watt m ((jp, v) ∷ d) ip w (there i) = In-min_watt (if ltb_ℤ v m then v else m) d ip w i

min_watt-cases :
    (m : ℤ) (d : Dict ℤ)
    → (min_watt m d ≡ m) ⊎ ((ip : Text) × (w : ℤ) × In (ip, w) d × (min_watt m d ≡ w))
unfolding min_watt
min_watt-cases m [] = inl refl
min_watt-cases m ((jp, v) ∷ d) = elim (Bool-cases (ltb_ℤ v m)) [
  | inl less ↦ elim (min_watt-cases v d) [
    | inl e ↦ inr (jp, v, here refl, rw (less, min_watt) e)
    | inr (ip, w, i, e) ↦ inr (ip, w, there i, rw (less, min_watt) e)
  ]
  | inr more ↦ elim (min_watt-cases m d) [
    | inl e ↦ inl (rw (more, min_watt) e)
    | inr (ip, w, i, e) ↦ inr (ip, w, there i, rw (more, min_watt) e)
  ]
]

-- A shifted watt is one more than a natural watt of the map.
In-shift_watts :
    (ip : Text) (n : ℕ) (d : Dict ℤ)
    → n + 1 < 2 ^ 63
    → In (ip, pos n) d
    → In (ip, pos (n + 1)) (shift_watts d)
unfolding shift_watts
In-shift_watts ip n [] b i = elim i [ ]
In-shift_watts ip n ((jp, v) ∷ d) b (here e) =
    let jp_eq : jp ≡ ip = sym (ap (λ (x : Text × ℤ). x.0) e) in
    let v_eq : v ≡ pos n = sym (ap (λ (x : Text × ℤ). x.1) e) in
    let not_less : ltb_ℤ v (pos 0) ≡ false = rw v_eq (ground arith) in
    rw (not_less, shift_watts) (here (rw (jp_eq, v_eq, add64_pos n 1 b) refl))
In-shift_watts ip n ((jp, v) ∷ d) b (there i) = elim (Bool-cases (ltb_ℤ v (pos 0))) [
  | inl e ↦ rw (e, shift_watts) (In-shift_watts ip n d b i)
  | inr e ↦ rw (e, shift_watts) (there (In-shift_watts ip n d b i))
]

nonneg-cases : (v : ℤ) → ltb_ℤ v (pos 0) ≡ false → (n : ℕ) × (v ≡ pos n)
nonneg-cases (pos n) e = (n, refl)
nonneg-cases (negsuc n) e = absurd (ground arith)

In-shift_watts_cases :
    (ip : Text) (w : ℤ) (d : Dict ℤ)
    → In (ip, w) (shift_watts d)
    → (n : ℕ) × In (ip, pos n) d × (w ≡ add64 (pos n) (pos 1))
unfolding shift_watts
In-shift_watts_cases ip w [] i = elim i [ ]
In-shift_watts_cases ip w ((jp, v) ∷ d) i = elim (Bool-cases (ltb_ℤ v (pos 0))) [
  | inl e ↦
      let (n, j, q) = In-shift_watts_cases ip w d (rw (e, shift_watts) at i) in (n, there j, q)
  | inr e ↦ at_head (nonneg-cases v e) (rw (e, shift_watts) at i) (In-shift_watts_cases ip w d)
]
  where
    at_head :
        (n : ℕ) × (v ≡ pos n)
        → In (ip, w) ((jp, add64 v (pos 1)) ∷ shift_watts d)
        → (In (ip, w) (shift_watts d) → (n : ℕ) × In (ip, pos n) d × (w ≡ add64 (pos n) (pos 1)))
        → (n : ℕ) × In (ip, pos n) ((jp, v) ∷ d) × (w ≡ add64 (pos n) (pos 1))
    at_head (n, q) (here p) rec = (
      n,
      here (ground (arith, ap (λ (x : Text × ℤ). x.0) p)),
      ground (arith, ap (λ (x : Text × ℤ). x.1) p),
    )
    at_head (n, q) (there j) rec = let (k, l, r) = rec j in (k, there l, r)

module _ (fl : Floats) where
  In-weights :
      (m : ℤ) (ip : Text) (w : ℤ) (d : Dict ℤ)
      → In (ip, w) d
      → In (ip, weight fl m w) (weights fl m d)
  unfolding weights
  In-weights m ip w [] i = elim i [ ]
  In-weights m ip w ((jp, v) ∷ d) (here e) = here (ap (λ (x : Text × ℤ). (x.0, weight fl m x.1)) e)
  In-weights m ip w ((jp, v) ∷ d) (there i) = there (In-weights m ip w d i)

  In-weights_cases :
      (m : ℤ) (ip : Text) (s : ℤ) (d : Dict ℤ)
      → In (ip, s) (weights fl m d)
      → (w : ℤ) × In (ip, w) d × (s ≡ weight fl m w)
  unfolding weights
  In-weights_cases m ip s [] i = elim i [ ]
  In-weights_cases m ip s ((jp, v) ∷ d) (here e) =
      (v, here (ap (λ (x : Text × ℤ). (x.0, v)) e), ap (λ (x : Text × ℤ). x.1) e)
  In-weights_cases m ip s ((jp, v) ∷ d) (there i) =
      let (w, j, e) = In-weights_cases m ip s d i in (w, there j, e)

  -- Whatever the floats do, each weight lies from 0 to 100 and belongs to an endpoint with natural
  -- watts.
  pub normalize_scores_range :
      (watts : Dict ℤ) (ip : Text) (s : ℤ)
      → In (ip, s) (normalize_scores fl watts)
      → (n k : ℕ) × In (ip, pos n) watts × (s ≡ pos k) × (k ≤ 100)
  unfolding normalize_scores weight
  normalize_scores_range watts ip s i =
      let (w, j, e) =
        In-weights_cases (min_watt max_int64 (shift_watts watts)) ip s (shift_watts watts) i in
      let (n, k, q) = In-shift_watts_cases ip w watts j in
      let (c, r, b) = clamp_range (
        fl.to_int (
          fl.round (
            fl.mul (fl.of_int score_max)
              (fl.div (fl.of_int (min_watt max_int64 (shift_watts watts))) (fl.of_int w))))) in
      (n, c, k, e ∙ r, b)

-- Every natural number of watts leaves room for the 1 that is added.
abbrev pub Fits : Dict ℤ → Type 0
Fits watts = (ip : Text) (n : ℕ) → In (ip, pos n) watts → n + 1 < 2 ^ 63

module _ (fl : Floats) (ieee : IsRounded fl) (watts : Dict ℤ) (fits : Fits watts) where
  least : ℤ
  least = min_watt max_int64 (shift_watts watts)

  -- If there are watts, the least one is found, and is positive.
  least-pos :
      (ip : Text) (n : ℕ)
      → In (ip, pos n) watts
      → (m : ℕ) × (least ≡ pos m)
        × (0 < m)
        × (m ≤ n + 1)
        × (((jp : Text) × (k : ℕ) × In (jp, pos k) watts × (m ≡ k + 1)))
  unfolding least
  least-pos ip n i =
      let le : least ≤ℤ pos (n + 1) =
        In-min_watt max_int64 (shift_watts watts) ip (pos (n + 1))
          (In-shift_watts ip n watts (fits ip n i) i) in
      elim (min_watt-cases max_int64 (shift_watts watts)) [
        | inl e ↦
            let b : n + 1 < 2 ^ 63 = fits ip n i in
            let q : n + 1 ≡ 2 ^ 63 - 1 = ground (arith, rw e at le) in
            (n + 1, e ∙ ap pos (sym q), omega arith, omega arith, (ip, n, i, refl))
        | inr (jp, w, j, e) ↦
            let (k, l, q) = In-shift_watts_cases jp w watts j in
            let r = e ∙ q ∙ add64_pos k 1 (fits jp k l) in
            (k + 1, r, omega arith, ground (arith, rw r at le), (jp, k, l, refl))
      ]

  shifted-In :
      (ip : Text) (n : ℕ)
      → In (ip, pos n) watts
      → In (ip, weight fl least (pos (n + 1))) (normalize_scores fl watts)
  unfolding least normalize_scores
  shifted-In ip n i =
      In-weights fl least ip (pos (n + 1)) (shift_watts watts)
        (In-shift_watts ip n watts (fits ip n i) i)

  weight_least : (m : ℕ) → 0 < m → m < 2 ^ 63 → weight fl (pos m) (pos m) ≡ pos 100
  unfolding weight
  weight_least m p b = rw (ieee.div_self m p b, ieee.hundred) refl

  -- With floats that round as `IsRounded` says, and watts that leave room for the 1 that is added, an endpoint with the least
  -- natural watts of all gets the weight 100.
  pub normalize_scores_best :
      (ip : Text) (n : ℕ)
      → In (ip, pos n) watts
      → ((jp : Text) (k : ℕ) → In (jp, pos k) watts → n ≤ k)
      → In (ip, pos 100) (normalize_scores fl watts)
  normalize_scores_best ip n i all =
      let (m, e, p, b, (jp, k, j, q)) = least-pos ip n i in
      let f : m ≡ n + 1 = omega (arith, all jp k j) in
      subst (λ z. In (ip, z) (normalize_scores fl watts))
        (ap (λ x. weight fl x (pos (n + 1))) (e ∙ ap pos f)
          ∙ weight_least (n + 1) (omega arith) (fits ip n i))
        (shifted-In ip n i)

  -- The share of the least watts in those of an endpoint.
  share : ℕ → ℕ → fl.F
  share m a = fl.div (fl.of_int (pos m)) (fl.of_int (pos a))

  percent : fl.F → fl.F
  percent x = fl.mul (fl.of_int (pos 100)) x

  weight_antitone :
      (m a b : ℕ)
      → 0 < m
      → m ≤ a
      → a ≤ b
      → b < 2 ^ 63
      → weight fl (pos m) (pos b) ≤ℤ weight fl (pos m) (pos a)
  unfolding weight share percent
  weight_antitone m a b p q h r =
      let (low_a, high_a) = ieee.div_unit m a p q (omega arith) in
      let (low_b, high_b) = ieee.div_unit m b p (omega arith) r in
      let falls = ieee.div_antitone m a b p (omega arith) h r in
      clamp_mono (fl.to_int (fl.round (percent (share m b))))
        (fl.to_int (fl.round (percent (share m a))))
        (ieee.round_mono (percent (share m b)) (percent (share m a))
          (ieee.mul_percent (share m b) low_b high_b).0
          (ieee.mul_mono (share m b) (share m a) low_b falls high_a)
          (ieee.mul_percent (share m a) low_a high_a).1)

  -- Under these conditions, of two endpoints with natural watts both get a weight, and the one with
  -- fewer watts, or as many, gets no less.
  pub normalize_scores_order :
      (ip jp : Text) (n k : ℕ)
      → In (ip, pos n) watts
      → In (jp, pos k) watts
      → n ≤ k
      → (s t : ℤ) × In (ip, s) (normalize_scores fl watts)
        × In (jp, t) (normalize_scores fl watts)
        × (t ≤ℤ s)
  normalize_scores_order ip jp n k i j h =
      let (m, e, p, b, _) = least-pos ip n i in
      (
        weight fl least (pos (n + 1)),
        weight fl least (pos (k + 1)),
        shifted-In ip n i,
        shifted-In jp k j,
        rw e (weight_antitone m (n + 1) (k + 1) p b (omega arith) (fits jp k j)),
      )
