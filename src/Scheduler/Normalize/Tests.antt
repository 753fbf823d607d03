-- ===== src/Scheduler/Normalize/Tests.antt =====
-- Runs of NormalizeScore on four nodes.
use waok8s.Prelude.{
  ◌≡◌, refl, ap, inl, inr, List, [], ◌∷◌, map, In, here, there, All, lit, arith, text_eq,
}
use waok8s.Prelude.Int64.{pos, ◌≤ℤ◌}
use waok8s.Scheduler.Normalize.{NodeScore, score_error, score_max, normalize_score}
use waok8s.Scheduler.Normalize.Names.{Distinct}
use waok8s.Scheduler.Normalize.Range.{IsWatt, IsScored}
use waok8s.Scheduler.Normalize.Laws.{Ranked, normalize_score_orders, normalize_score_best}

abbrev low : NodeScore
low = record { name = lit "n1"; score = pos 10 }

abbrev high : NodeScore
high = record { name = lit "n2"; score = pos 30 }

abbrev four_scores : List NodeScore
four_scores =
    low
    ∷ high
    ∷ record { name = lit "n3"; score = score_error }
    ∷ record { name = lit "n4"; score = score_max }
    ∷ []

normalize_score_run :
    map (λ (s : NodeScore). s.score) (normalize_score (pos 100) four_scores)
    ≡ pos 100 ∷ pos 20 ∷ pos 0 ∷ pos 1 ∷ []
unfolding normalize_score text_eq
normalize_score_run = refl

four_scores-Distinct : Distinct four_scores
four_scores-Distinct = ground arith

low-IsWatt : IsWatt 100 (pos 10)
low-IsWatt = (10, refl, omega arith, omega arith)

high-IsWatt : IsWatt 100 (pos 30)
high-IsWatt = (30, refl, omega arith, omega arith)

four_scores-IsScored : All (IsScored 100) four_scores
four_scores-IsScored =
    (inr (inr low-IsWatt), (inr (inr high-IsWatt), (inl refl, (inr (inl refl), tt))))

normalize_score_orders_example :
    (f : NodeScore → NodeScore) × (normalize_score (pos 100) four_scores ≡ map f four_scores)
    × ((s : NodeScore) → (f s).name ≡ s.name)
    × ((s : NodeScore) → In s four_scores → Ranked 100 s.score (f s).score)
    × ((s t : NodeScore)
        → In s four_scores
        → In t four_scores
        → s.score ≤ℤ t.score
        → (f t).score ≤ℤ (f s).score)
normalize_score_orders_example =
    normalize_score_orders 100 four_scores (omega arith) (omega arith) four_scores-Distinct
      four_scores-IsScored

low_is_least : (r : NodeScore) → In r four_scores → low.score ≤ℤ r.score
low_is_least r (here e) = rw (ap (λ (s : NodeScore). s.score) e) (omega arith)
low_is_least r (there (here e)) = rw (ap (λ (s : NodeScore). s.score) e) (omega arith)
low_is_least r (there (there (here e))) = rw (ap (λ (s : NodeScore). s.score) e) (omega arith)
low_is_least r (there (there (there (here e)))) =
    rw (ap (λ (s : NodeScore). s.score) e) (omega arith)
low_is_least r (there (there (there (there i)))) = elim i [ ]

normalize_score_best_example :
    In (record { name = lit "n1"; score = pos 100 }) (normalize_score (pos 100) four_scores)
normalize_score_best_example =
    normalize_score_best 100 four_scores low high (omega arith) (omega arith) four_scores-Distinct
      four_scores-IsScored (here refl) (there (here refl)) high-IsWatt (omega arith) low_is_least
