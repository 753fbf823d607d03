-- ===== src/LoadBalancer/ScoreNode/Outcome.antt =====
-- How ScoreNode can end.
use waok8s.Prelude.{
  ℕ, ◌≡◌, refl, ◌⊎◌, inl, inr, ◌≢◌, Bool, true, false, Option, none, some, Text, Result, ok, err,
  ◌>>=◌, or_fail, arith, if◌then◌else◌, Option-cases,
}
use waok8s.Prelude.Int64.{ℤ, pos, negsuc, ltb_ℤ}
use waok8s.Prelude.Float.{Floats}
use waok8s.Kube.{Node}
use waok8s.NodeApi.{NodeConfig, EndpointTerm}
use waok8s.LoadBalancer.ScoreNode.{
  NodeEnv, Stop, unscored, failed, panicked, config_of, endpoint_of, predicted, score_usage,
  score_node,
}

-- Natural watts, 0 without an error, or an error.
abbrev Calm : Result Stop ℤ → Type 0
Calm (ok s) = (n : ℕ) × (s ≡ pos n)
Calm (err unscored) = Unit
Calm (err failed) = Unit
Calm (err panicked) = ⊥

bind-Calm :
    {A : Type 0} (o : Option A) (e : Stop) (f : A → Result Stop ℤ)
    → e ≢ panicked
    → ((a : A) → Calm (f a))
    → Calm (or_fail o e >>= f)
bind-Calm (some a) e f h k = k a
bind-Calm none unscored f h k = tt
bind-Calm none failed f h k = tt
bind-Calm none panicked f h k = h refl

clamp_nonneg : (w : ℤ) → (n : ℕ) × ((if ltb_ℤ w (pos 0) then pos 0 else w) ≡ pos n)
clamp_nonneg (pos n) = (n, ground arith)
clamp_nonneg (negsuc n) = (0, ground arith)

module _ (fl : Floats) (env : NodeEnv fl.F) where
  predicted-Calm :
      (nc : NodeConfig) (ep : EndpointTerm) (b a i d : fl.F) → Calm (predicted fl env nc ep b a i d)
  unfolding predicted
  predicted-Calm nc ep b a i d =
      bind-Calm (env.predict nc.namespace ep b i d) failed _ (ground arith) λ x.
        bind-Calm (env.predict nc.namespace ep a i d) failed _ (ground arith)
          λ y. clamp_nonneg (fl.to_int (fl.sub y x))

  endpoint-Calm :
      (nc : NodeConfig) (f : EndpointTerm → Result Stop ℤ)
      → ((ep : EndpointTerm) → Calm (f ep))
      → Calm (endpoint_of fl env nc >>= f)
  unfolding endpoint_of
  endpoint-Calm nc f k = elim (Option-cases nc.spec.predictor.power_consumption_endpoint_provider) [
    | inl e ↦ rw (e, endpoint_of) (k _)
    | inr (p, e) ↦ elim (Option-cases (env.predictor_endpoint nc.namespace p)) [
      | inl n ↦ rw (e, n, endpoint_of) tt
      | inr (none, q) ↦ rw (e, q, endpoint_of) tt
      | inr (some ep2, q) ↦ rw (e, q, endpoint_of) (k _)
    ]
  ]

  score_usage-Calm : (name : Text) (b a : fl.F) → Calm (score_usage fl env name b a)
  unfolding score_usage
  score_usage-Calm name b a = bind-Calm (env.inlet_temp name) failed _ (ground arith) λ ip.
      bind-Calm (env.delta_p name) failed _ (ground arith) λ dp.
        bind-Calm ip unscored _ (ground arith) λ i. bind-Calm dp unscored _ (ground arith) λ d.
          bind-Calm env.node_configs failed _ (ground arith) λ ncs.
            bind-Calm (config_of name ncs) unscored _ (ground arith)
              λ nc. endpoint-Calm nc _ λ ep. predicted-Calm nc ep b a i d

  branch-Calm : (b : Bool) (r : Result Stop ℤ) → Calm r → Calm (if b then err unscored else r)
  branch-Calm true r h = tt
  branch-Calm false r h = h

  -- `ScoreNode` ends in one of four ways, and never with negative watts: natural watts, 0 without an
  -- error, an error, or a panic; it panics only on a known node for which the metrics client
  -- returns nil without an error.
  pub score_node-cases :
      (format name : Text) (cpu : fl.F)
      → ((n : ℕ) × (score_node fl env format name cpu ≡ ok (pos n)))
        ⊎ (score_node fl env format name cpu ≡ err unscored)
        ⊎ (score_node fl env format name cpu ≡ err failed)
        ⊎ ((score_node fl env format name cpu ≡ err panicked)
            × (node : Node fl.F) × (env.node name ≡ some node)
            × (env.node_usage node.name ≡ some none))
  unfolding score_node
  score_node-cases format name cpu = elim (Option-cases (env.node name)) [
    | inl e ↦ inr (inr (inl (rw (e, score_node))))
    | inr (node, e) ↦ elim (Option-cases (env.node_usage node.name)) [
      | inl f ↦ inr (inr (inl (rw (e, score_node) (rw (f, score_node)))))
      | inr (none, f) ↦ inr (inr (inr (rw (e, score_node) (rw (f, score_node)), node, e, f)))
      | inr (some usage, f) ↦
          rw (e, score_node)
            (rw (f, score_node) (calm _ (branch-Calm _ _ (score_usage-Calm name _ _))))
    ]
  ]
    where
      calm :
          {P : Type 0} (r : Result Stop ℤ)
          → Calm r
          → ((n : ℕ) × (r ≡ ok (pos n))) ⊎ (r ≡ err unscored) ⊎ (r ≡ err failed) ⊎ P
      calm (ok s) (n, e) = inl (n, ground arith)
      calm (err unscored) h = inr (inl refl)
      calm (err failed) h = inr (inr (inl refl))
      calm (err panicked) h = absurd h
