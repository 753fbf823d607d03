-- ===== src/Scheduler/Normalize.antt =====
-- wao-scheduler/pkg/plugins/minimizepower/minimizepower.go: NormalizeScore and
-- PowerConsumptions2Scores, from predicted watts to node scores.
pub mod Names
pub mod Range
mod Tests
pub mod Laws
use waok8s.Prelude.{
  ℕ, ◌+◌, ◌-◌, ◌^◌, ◌≡◌, List, [], ◌∷◌, ◌++◌, map, Option, none, some, Text, Dict, insert,
  lookup_or, if◌then◌else◌,
}
use waok8s.Prelude.Int64.{ℤ, pos, ltb_ℤ, eq_ℤ, sub64, mul64, quot64, max_int64, min_int64}

-- `framework.NodeScore`
pub record NodeScore : Type 0 where
  pub name : Text
  pub score : ℤ

abbrev pub score_base : ℤ
score_base = pos 20

-- `math.MaxInt64` and `math.MaxInt64 >> 1`
abbrev pub score_error : ℤ
score_error = max_int64

abbrev pub score_max : ℤ
score_max = pos (2 ^ 62 - 1)

-- A map of int64 to int64.
abbrev pub ReplaceMap : Type 0
ReplaceMap = List (ℤ × ℤ)

abbrev pub score_replace_map : ReplaceMap
score_replace_map = (score_error, pos 0) ∷ (score_max, pos 1) ∷ []

unfoldable pub replacement : ReplaceMap → ℤ → Option ℤ
replacement [] s = none
replacement ((k, v) ∷ rm) s = if eq_ℤ k s then some v else replacement rm s

-- The two slices that the first loop fills.
unfoldable pub replaced_scores : ReplaceMap → List NodeScore → List NodeScore
unfolding replacement
replaced_scores rm [] = []
replaced_scores rm (s ∷ scores) = elim (replacement rm s.score) [
  | some v ↦ record { name = s.name; score = v } ∷ replaced_scores rm scores
  | none ↦ replaced_scores rm scores
]

unfoldable pub calculated_scores : ReplaceMap → List NodeScore → List NodeScore
unfolding replacement
calculated_scores rm [] = []
calculated_scores rm (s ∷ scores) = elim (replacement rm s.score) [
  | some v ↦ calculated_scores rm scores
  | none ↦ s ∷ calculated_scores rm scores
]

-- `highest` and `lowest` at the end of the second loop, from their values before it.
unfoldable pub highest_from : ℤ → List NodeScore → ℤ
highest_from h [] = h
highest_from h (s ∷ scores) = highest_from (if ltb_ℤ h s.score then s.score else h) scores

unfoldable pub lowest_from : ℤ → List NodeScore → ℤ
lowest_from l [] = l
lowest_from l (s ∷ scores) = lowest_from (if ltb_ℤ s.score l then s.score else l) scores

-- The body of the third loop; `top` is `framework.MaxNodeScore`.
unfoldable pub rescale : ℤ → ℤ → ℤ → ℤ → ℤ → ℤ
unfolding sub64 mul64 quot64
rescale top base highest lowest s =
    if eq_ℤ highest lowest
    then base
    else sub64 top (quot64 (mul64 (sub64 top base) (sub64 s lowest)) (sub64 highest lowest))

unfoldable pub rescale_all : ℤ → ℤ → ℤ → ℤ → List NodeScore → List NodeScore
unfolding rescale
rescale_all top base highest lowest [] = []
rescale_all top base highest lowest (s ∷ scores) =
    record { name = s.name; score = rescale top base highest lowest s.score }
    ∷ rescale_all top base highest lowest scores

-- `scores2[score.Name] = score` for each score.
unfoldable pub insert_all : List NodeScore → Dict NodeScore → Dict NodeScore
unfolding insert
insert_all [] m = m
insert_all (s ∷ scores) m = insert_all scores (insert s.name s m)

abbrev pub no_score : NodeScore
no_score = record { name = []; score = pos 0 }

-- `PowerConsumptions2Scores`, which overwrites its argument with the result.
unfoldable pub power_consumptions_to_scores : ℤ → List NodeScore → ℤ → ReplaceMap → List NodeScore
unfolding replaced_scores calculated_scores highest_from lowest_from rescale_all insert_all
    lookup_or
power_consumptions_to_scores top scores base rm =
    let calculated = calculated_scores rm scores in
    let highest = highest_from min_int64 calculated in
    let lowest = lowest_from max_int64 calculated in
    let rescaled = rescale_all top base highest lowest calculated in
    let scores2 = insert_all rescaled (insert_all (replaced_scores rm scores) []) in
    map (λ s. lookup_or no_score s.name scores2) scores

-- `NormalizeScore`, less its logging and its clock.
unfoldable pub normalize_score : ℤ → List NodeScore → List NodeScore
unfolding power_consumptions_to_scores
normalize_score top scores = power_consumptions_to_scores top scores score_base score_replace_map
