-- ===== src/Scheduler/Normalize/Laws.antt =====
-- What NormalizeScore promises: an order-reversing map of watts to the range of scores, with the
-- error mark at the bottom and the overcommitment mark above it.
use waok8s.Prelude.{
  ℕ, ◌-◌, ◌^◌, ◌≤◌, ◌<◌, ◌≡◌, refl, ap, ◌∙◌, ◌⊎◌, inl, inr, List, map, none, some, In, arith, All,
  All-In, In-map, subst,
}
use mathlib.Core.Path.{ap₂}
use waok8s.Prelude.Int64.{ℤ, pos, ◌≤ℤ◌, ◌<ℤ◌, min_int64, max_int64}
use waok8s.Scheduler.Normalize.{
  NodeScore, replacement, calculated_scores, rescale, highest_from, lowest_from, score_base,
  score_error, score_max, score_replace_map, normalize_score,
}
use waok8s.Scheduler.Normalize.Names.{
  In-calculated_cases, In-calculated, Distinct, Distinct-Unambiguous, new_score,
  power_consumptions_to_scores-map,
}
use waok8s.Scheduler.Normalize.Range.{
  In-highest_from, highest_from-cases, In-lowest_from, lowest_from-cases, IsWatt, IsScored, curve,
  rescale-curve, curve_bounds, curve_antitone, curve_lowest,
}

-- The score that a node must get.
abbrev pub Ranked : ℕ → ℤ → ℤ → Type 0
Ranked top old new =
    ((old ≡ score_error) × (new ≡ pos 0))
    ⊎ ((old ≡ score_max) × (new ≡ pos 1))
    ⊎ (IsWatt top old × (n : ℕ) × (new ≡ pos n) × (20 ≤ n) × (n ≤ top))

replacement_error : replacement score_replace_map score_error ≡ some (pos 0)
unfolding replacement
replacement_error = refl

replacement_max : replacement score_replace_map score_max ≡ some (pos 1)
unfolding replacement
replacement_max = refl

replacement_watt : (n : ℕ) → n < 2 ^ 62 - 1 → replacement score_replace_map (pos n) ≡ none
unfolding replacement
replacement_watt n h = ground arith

module _ (top : ℕ) (scores : List NodeScore) (scored : All (IsScored top) scores) where
  -- The calculated scores, and the extremes that the second loop finds in them.
  calc : List NodeScore
  calc = calculated_scores score_replace_map scores

  hi : ℤ
  unfolding calc
  hi = highest_from min_int64 calc

  lo : ℤ
  unfolding calc
  lo = lowest_from max_int64 calc

  calculated-IsWatt : (s : NodeScore) → In s calc → IsWatt top s.score
  unfolding calc
  calculated-IsWatt s i =
      let (j, n) = In-calculated_cases score_replace_map s scores i in
      elim (All-In (IsScored top) scores scored j) [
        | inl e ↦ absurd (ground (arith, replacement_error, ap (replacement score_replace_map) e))
        | inr (inl e) ↦
            absurd (ground (arith, replacement_max, ap (replacement score_replace_map) e))
        | inr (inr w) ↦ w
      ]

  highest-IsWatt : (s : NodeScore) → In s calc → IsWatt top hi
  unfolding hi
  highest-IsWatt s i = elim (highest_from-cases min_int64 calc) [
    | inl e ↦
        let (n, p, _, _) = calculated-IsWatt s i in
        absurd (ground (arith, In-highest_from min_int64 calc s i))
    | inr (t, j, e) ↦ rw e (calculated-IsWatt t j)
  ]

  lowest-IsWatt : (s : NodeScore) → In s calc → IsWatt top lo
  unfolding lo
  lowest-IsWatt s i = elim (lowest_from-cases max_int64 calc) [
    | inl e ↦
        let (n, p, _, b) = calculated-IsWatt s i in
        absurd (ground (arith, In-lowest_from max_int64 calc s i))
    | inr (t, j, e) ↦ rw e (calculated-IsWatt t j)
  ]

  -- Among watts, the new score of a node lies on the curve between the two extremes.
  on_curve :
      20 ≤ top
      → top < 2 ^ 63
      → (s : NodeScore) → In s calc
      → (h l n : ℕ) × (hi ≡ pos h)
        × (lo ≡ pos l)
        × (s.score ≡ pos n)
        × (l ≤ n)
        × (n ≤ h)
        × (rescale (pos top) score_base hi lo s.score ≡ pos (curve top h l n))
  unfolding hi lo
  on_curve t u s i =
      let (h, p, _, hb) = highest-IsWatt s i in
      let (l, q, _, _) = lowest-IsWatt s i in
      let (n, r, f, _) = calculated-IsWatt s i in
      let above : n ≤ h = ground (arith, In-highest_from min_int64 calc s i) in
      let below : l ≤ n = ground (arith, In-lowest_from max_int64 calc s i) in
      (
        h,
        l,
        n,
        p,
        q,
        r,
        below,
        above,
        rw (p, q, r) (rescale-curve top h l n t u (omega arith) below above f),
      )

  -- The new score of each node, as a function of the node's entry.
  abbrev after : NodeScore → NodeScore
  after = new_score (pos top) score_base hi lo score_replace_map

  after-name : (s : NodeScore) → (after s).name ≡ s.name
  unfolding new_score
  after-name s = ground arith

  after_replaced :
      (s : NodeScore) (v : ℤ) → replacement score_replace_map s.score ≡ some v → (after s).score ≡ v
  unfolding new_score
  after_replaced s v e = rw (e, new_score)

  after_rescaled :
      (s : NodeScore)
      → replacement score_replace_map s.score ≡ none
      → (after s).score ≡ rescale (pos top) score_base hi lo s.score
  unfolding new_score
  after_rescaled s e = rw (e, new_score)

  -- A node with watts is among the calculated scores, and lands on the curve.
  watt_on_curve :
      20 ≤ top
      → top < 2 ^ 63
      → (s : NodeScore) → In s scores
      → IsWatt top s.score
      → (h l n : ℕ) × (hi ≡ pos h)
        × (lo ≡ pos l)
        × (s.score ≡ pos n)
        × (l ≤ n)
        × (n ≤ h)
        × ((after s).score ≡ pos (curve top h l n))
  unfolding calc
  watt_on_curve t u s i (n, e, f, g) =
      let miss = ap (replacement score_replace_map) e ∙ replacement_watt n g in
      let (h, l, m, p, q, r, a, b, c) =
        on_curve t u s (In-calculated score_replace_map s scores miss i) in
      (h, l, m, p, q, r, a, b, after_rescaled s miss ∙ c)

  after-Ranked :
      20 ≤ top → top < 2 ^ 63 → (s : NodeScore) → In s scores → Ranked top s.score (after s).score
  after-Ranked t u s i = elim (All-In (IsScored top) scores scored i) [
    | inl e ↦ inl (e, after_replaced s _ (ap (replacement score_replace_map) e ∙ replacement_error))
    | inr (inl e) ↦
        inr (inl (e, after_replaced s _ (ap (replacement score_replace_map) e ∙ replacement_max)))
    | inr (inr w) ↦
        let (h, l, n, _, _, _, a, b, c) = watt_on_curve t u s i w in
        let (low, high) = curve_bounds top h l n t a b in
        inr (inr (w, curve top h l n, c, low, high))
  ]

  watts_antitone :
      20 ≤ top
      → top < 2 ^ 63
      → (s t : NodeScore) → In s scores
      → In t scores
      → IsWatt top s.score
      → IsWatt top t.score
      → s.score ≤ℤ t.score
      → (after t).score ≤ℤ (after s).score
  watts_antitone c d s t i j v w le =
      let (h, l, m, p, q, r, a, b, e) = watt_on_curve c d s i v in
      let (h', l', n, p', q', r', a', b', e') = watt_on_curve c d t j w in
      let same_h : h' ≡ h = ground arith in
      let same_l : l' ≡ l = ground arith in
      let order : m ≤ n = ground arith in
      let step = curve_antitone top h l m n (omega arith) order in ground arith

  after_antitone :
      20 ≤ top
      → top < 2 ^ 63
      → (s t : NodeScore) → In s scores
      → In t scores
      → s.score ≤ℤ t.score
      → (after t).score ≤ℤ (after s).score
  after_antitone c d s t i j le =
      ground (arith, after-Ranked c d s i, after-Ranked c d t j, watts_antitone c d s t i j)

  -- The lowest calculated score is no less than a bound of all scores.
  least-le-lo :
      (s t : NodeScore)
      → In t scores
      → IsWatt top t.score
      → ((r : NodeScore) → In r scores → s.score ≤ℤ r.score)
      → s.score ≤ℤ lo
  unfolding lo calc
  least-le-lo s t j (n, e, f, g) least = elim (lowest_from-cases max_int64 calc) [
    | inl q ↦ rw q (ground (arith, least t j))
    | inr (r, k, q) ↦ rw q (least r (In-calculated_cases score_replace_map r scores k).0)
  ]

  after_best :
      20 ≤ top
      → top < 2 ^ 63
      → (s t : NodeScore) → In s scores
      → In t scores
      → IsWatt top t.score
      → s.score <ℤ t.score
      → ((r : NodeScore) → In r scores → s.score ≤ℤ r.score)
      → (after s).score ≡ pos top
  after_best a b s t i j w lt least =
      let v : IsWatt top s.score = elim (All-In (IsScored top) scores scored i) [
        | inl e ↦ absurd (ground arith)
        | inr (inl e) ↦ absurd (ground arith)
        | inr (inr v) ↦ v
      ] in
      let (h, l, n, p, q, r, x, y, e) = watt_on_curve a b s i v in
      let (h', l', m, p', q', r', x', y', e') = watt_on_curve a b t j w in
      let first : l ≡ n = ground (arith, least-le-lo s t j w least) in
      let apart : l < h = ground arith in e ∙ ap pos (rw (← first) (curve_lowest top h l apart))

-- With distinct node names and scores that are watts or marks, `NormalizeScore` maps each entry by
-- one function that keeps its name, ranks it (error 0, overcommitment 1, watts from 20 to the top)
-- and never gives a node of higher predicted watts a better score.
pub normalize_score_orders :
    (top : ℕ) (scores : List NodeScore)
    → 20 ≤ top
    → top < 2 ^ 63
    → Distinct scores
    → All (IsScored top) scores
    → (f : NodeScore → NodeScore) × (normalize_score (pos top) scores ≡ map f scores)
      × ((s : NodeScore) → (f s).name ≡ s.name)
      × ((s : NodeScore) → In s scores → Ranked top s.score (f s).score)
      × ((s t : NodeScore)
          → In s scores
          → In t scores
          → s.score ≤ℤ t.score
          → (f t).score ≤ℤ (f s).score)
unfolding normalize_score hi lo calc
normalize_score_orders top scores a b d sc = (
  after top scores sc,
  power_consumptions_to_scores-map (pos top) score_base score_replace_map scores
      (Distinct-Unambiguous scores d),
  after-name top scores sc,
  after-Ranked top scores sc a b,
  after_antitone top scores sc a b,
)

-- Under the same conditions a node of the least predicted watts gets the top score, if some other
-- node has more watts.
pub normalize_score_best :
    (top : ℕ) (scores : List NodeScore) (s t : NodeScore)
    → 20 ≤ top
    → top < 2 ^ 63
    → Distinct scores
    → All (IsScored top) scores
    → In s scores
    → In t scores
    → IsWatt top t.score
    → s.score <ℤ t.score
    → ((r : NodeScore) → In r scores → s.score ≤ℤ r.score)
    → In (record { name = s.name; score = pos top }) (normalize_score (pos top) scores)
unfolding normalize_score hi lo calc
normalize_score_best top scores s t a b d sc i j w lt least =
    subst (λ x. In x (normalize_score (pos top) scores))
      (ap₂ (λ k v. record { name = k; score = v }) (after-name top scores sc s)
        (after_best top scores sc a b s t i j w lt least))
      (rw
        (
          power_consumptions_to_scores-map (pos top) score_base score_replace_map scores
              (Distinct-Unambiguous scores d),
          normalize_score,
        )
        (In-map (after top scores sc) scores i))
