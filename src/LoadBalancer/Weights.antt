-- ===== src/LoadBalancer/Weights.antt =====
-- wao-loadbalancer/pkg/proxy/nftables/wao.go: normalizeScores, from watts to weights.
pub mod Laws
use waok8s.Prelude.{ℕ, List, [], ◌∷◌, map, Text, Dict, if◌then◌else◌}
use waok8s.Prelude.Int64.{min_ℤ, max_ℤ, ℤ, pos, ltb_ℤ, add64, max_int64}
use waok8s.Prelude.Float.{Floats}

-- `ScoreMax` and `ScoreMin`
abbrev pub score_max : ℤ
score_max = pos 100

abbrev pub score_min : ℤ
score_min = pos 0

-- The first loop: negative watts are dropped, and 1 is added to the others. The keys of a Go map are
-- distinct, so each entry of the new map is new.
unfoldable pub shift_watts : Dict ℤ → Dict ℤ
shift_watts [] = []
shift_watts ((ip, watt) ∷ watts) =
    if ltb_ℤ watt (pos 0) then shift_watts watts else (ip, add64 watt (pos 1)) ∷ shift_watts watts

-- The second loop.
unfoldable pub min_watt : ℤ → Dict ℤ → ℤ
min_watt m [] = m
min_watt m ((ip, watt) ∷ watts) = min_watt (if ltb_ℤ watt m then watt else m) watts

module _ (fl : Floats) where
  open fl use {mul, div, of_int, to_int, round}

  -- The body of the third loop.
  unfoldable pub weight : ℤ → ℤ → ℤ
  weight m watt =
      max_ℤ score_min
        (min_ℤ score_max (to_int (round (mul (of_int score_max) (div (of_int m) (of_int watt))))))

  unfoldable pub weights : ℤ → Dict ℤ → Dict ℤ
  unfolding weight
  weights m [] = []
  weights m ((ip, watt) ∷ watts) = (ip, weight m watt) ∷ weights m watts

  -- `normalizeScores`
  unfoldable pub normalize_scores : Dict ℤ → Dict ℤ
  unfolding shift_watts min_watt weights
  normalize_scores watts =
      let watts2 = shift_watts watts in weights (min_watt max_int64 watts2) watts2
