-- ===== src/Scheduler/Power/Cases.antt =====
-- When Score of MinimizePower gives which score.
use waok8s.Prelude.{
  ℕ, ◌≡◌, ap, ◌∙◌, ◌⊎◌, inl, inr, true, false, none, some, Text, Result, ok, err, Bool-cases,
  Option-cases,
}
use waok8s.Prelude.Int64.{ℤ, pos}
use waok8s.Prelude.Float.{Floats}
use waok8s.Kube.{Pod}
use waok8s.Scheduler.Normalize.{score_error, score_max}
use waok8s.Scheduler.Power.{
  MinimizePowerArgs, NodeInfo, PowerEnv, Stop, pod_cpu_request_or_limit, assumed_usage,
  format_usage, score_formatted, score_steps,
}
use waok8s.Scheduler.Power.Stop.{returned, panicked}
use waok8s.Scheduler.Power.Outcome.{
  NeverNil, Ends, IsError, Calm, score_formatted-Ends, score_formatted-Calm,
}

module _ (fl : Floats) (env : PowerEnv fl.F) (args : MinimizePowerArgs fl.F) (pod : Pod fl.F) where
  open fl use {F, zero_f, add, eqb, ltf}

  -- The CPU usage of the node now, with the pods that are only assumed to run, and with the pod.
  abbrev pub before : NodeInfo F → F → F
  before info usage = add usage (assumed_usage fl args info.node.name zero_f info.pods)

  abbrev pub after : NodeInfo F → F → F
  after info usage = add (before info usage) (pod_cpu_request_or_limit fl pod)

  -- What Score asks the predictor for.
  abbrev pub prediction : Text → NodeInfo F → F → Result Stop ℤ
  prediction name info usage =
      let format = format_usage fl args.cpu_usage_format info.node.capacity_cpu in
      score_formatted fl env name (format (before info usage)) (format (after info usage))

  -- The snapshot knows the node, and its usage is known.
  abbrev pub Measured : Text → NodeInfo F → F → Type 0
  Measured name info usage =
      (env.node_info name ≡ some info) × (env.node_usage info.node.name ≡ some (some usage))

  -- The pod asks for CPU, and for more than the node has left.
  abbrev pub Overcommitted : Text → Type 0
  Overcommitted name =
      (info : NodeInfo F) × (usage : F) × Measured name info usage
      × (eqb (before info usage) (after info usage) ≡ false)
      × (ltf info.node.capacity_cpu (after info usage) ≡ true)

  -- The pod asks for CPU that the node has left.
  abbrev pub Fitting : Text → NodeInfo F → F → Type 0
  Fitting name info usage =
      Measured name info usage
      × (eqb (before info usage) (after info usage) ≡ false)
      × (ltf info.node.capacity_cpu (after info usage) ≡ false)

  -- The pod fits, and `n` watts are predicted.
  abbrev pub Predicted : Text → ℕ → Type 0
  Predicted name n =
      (info : NodeInfo F) × (usage : F) × Fitting name info usage
      × (prediction name info usage ≡ ok (pos n))

  -- The node or its usage is not known, the pod asks for nothing, or it fits and nothing is predicted.
  abbrev pub Unscored : Text → Type 0
  Unscored name =
      (env.node_info name ≡ none)
      ⊎ ((info : NodeInfo F) × (env.node_info name ≡ some info)
          × (env.node_usage info.node.name ≡ none))
      ⊎ ((info : NodeInfo F) × (usage : F) × Measured name info usage
          × (eqb (before info usage) (after info usage) ≡ true))
      ⊎ ((info : NodeInfo F) × (usage : F) × Fitting name info usage
          × (prediction name info usage ≡ err (returned score_error)))

  module _ (never_nil : NeverNil env) where
    prediction-cases :
        (name : Text) (info : NodeInfo F) (usage : F)
        → (prediction name info usage ≡ err (returned score_error))
          ⊎ ((n : ℕ) × (prediction name info usage ≡ ok (pos n)))
    prediction-cases name info usage =
        ended (prediction name info usage) (score_formatted-Ends fl env name _ _)
          (score_formatted-Calm fl env never_nil name _ _)
      where
        ended :
            (r : Result Stop ℤ)
            → Ends IsError r
            → Calm r
            → (r ≡ err (returned score_error)) ⊎ ((n : ℕ) × (r ≡ ok (pos n)))
        ended (ok s) (n, e) c = inr (n, ap ok e)
        ended (err (returned s)) e c = inl (ap (λ x. err (returned x)) e)
        ended (err panicked) e c = absurd c

    -- The three ends of Score.
    pub score_steps-cases :
        (name : Text)
        → (Unscored name × (score_steps fl env args pod name ≡ err (returned score_error)))
          ⊎ (Overcommitted name × (score_steps fl env args pod name ≡ err (returned score_max)))
          ⊎ ((n : ℕ) × Predicted name n × (score_steps fl env args pod name ≡ ok (pos n)))
    unfolding score_steps
    score_steps-cases name = elim (Option-cases (env.node_info name)) [
      | inl n ↦ inl (inl n, rw (n, score_steps))
      | inr (info, i) ↦ elim (Option-cases (env.node_usage info.node.name)) [
        | inl n ↦ inl (inr (inl (info, i, n)), rw (i, score_steps) (rw (n, score_steps)))
        | inr (none, u) ↦ absurd (never_nil.usage info.node.name u)
        | inr (some usage, u) ↦ elim (Bool-cases (eqb (before info usage) (after info usage))) [
          | inl idle ↦ inl (
            inr (inr (inl (info, usage, (i, u), idle))),
            rw (i, score_steps) (rw (u, score_steps) (rw (idle, score_steps))),
          )
          | inr busy ↦ elim (Bool-cases (ltf info.node.capacity_cpu (after info usage))) [
            | inl over ↦ inr (
                inl (
                  (info, usage, (i, u), busy, over),
                  rw (i, score_steps)
                      (rw (u, score_steps) (rw (busy, score_steps) (rw (over, score_steps)))),
                ))
            | inr fits ↦
                let reached : score_steps fl env args pod name ≡ prediction name info usage =
                  rw (i, score_steps)
                    (rw (u, score_steps) (rw (busy, score_steps) (rw (fits, score_steps)))) in
                elim (prediction-cases name info usage) [
                  | inl failed ↦ inl (
                    inr (inr (inr (info, usage, ((i, u), busy, fits), failed))),
                    reached ∙ failed,
                  )
                  | inr (n, q) ↦ inr (inr (n, (info, usage, ((i, u), busy, fits), q), reached ∙ q))
                ]
          ]
        ]
      ]
    ]
