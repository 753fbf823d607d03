-- ===== src/Scheduler/Power/Outcome.antt =====
-- What Score can return, and when it dereferences nil.
use waok8s.Prelude.{
  ℕ, ◌≡◌, refl, ◌⊎◌, inl, inr, ◌≢◌, Bool, true, false, Option, none, some, Text, Result, ok, err,
  ◌>>=◌, or_fail, arith, if◌then◌else◌, Option-cases,
}
use waok8s.Prelude.Int64.{ℤ, pos, negsuc, ltb_ℤ}
use waok8s.Prelude.Float.{Floats}
use waok8s.Kube.{Pod}
use waok8s.NodeApi.{NodeConfig, EndpointTerm}
use waok8s.Scheduler.Normalize.{score_error, score_max}
use waok8s.Scheduler.Power.{
  MinimizePowerArgs, NodeInfo, PowerEnv, Stop, deref, find_node_config, choose_endpoint,
  predict_score, score_formatted, score_steps, score,
}
use waok8s.Scheduler.Power.Stop.{returned, panicked}

-- What a step of `Score` may end with: natural watts, one of the marks of `P`, or a panic.
abbrev pub Ends : (ℤ → Type 0) → Result Stop ℤ → Type 0
Ends P (ok s) = (n : ℕ) × (s ≡ pos n)
Ends P (err (returned s)) = P s
Ends P (err panicked) = Unit

abbrev pub IsError : ℤ → Type 0
IsError s = s ≡ score_error

abbrev pub IsMark : ℤ → Type 0
IsMark s = (s ≡ score_error) ⊎ (s ≡ score_max)

abbrev pub Sound : Result Stop ℤ → Type 0
Sound = Ends IsMark

bind-Ends {ℓ} :
    {A : Type ℓ} (P : ℤ → Type 0) (r : Result Stop A) (f : A → Result Stop ℤ)
    → ((s : ℤ) → r ≡ err (returned s) → P s)
    → ((a : A) → Ends P (f a))
    → Ends P (r >>= f)
bind-Ends P (ok a) f h k = k a
bind-Ends P (err (returned s)) f h k = h s refl
bind-Ends P (err panicked) f h k = tt

or_fail-IsError :
    {A : Type 0} (o : Option A) (s : ℤ)
    → or_fail o (returned score_error) ≡ err (returned s)
    → IsError s
or_fail-IsError none s e = ground arith
or_fail-IsError (some a) s e = absurd (ground arith)

deref-IsError : {A : Type 0} (o : Option A) (s : ℤ) → deref o ≡ err (returned s) → IsError s
deref-IsError none s e = absurd (ground arith)
deref-IsError (some a) s e = absurd (ground arith)

Ends-IsMark : (r : Result Stop ℤ) → Ends IsError r → Sound r
Ends-IsMark (ok s) h = h
Ends-IsMark (err (returned s)) h = inl h
Ends-IsMark (err panicked) h = tt

branches-Sound :
    (b c : Bool) (r : Result Stop ℤ)
    → Ends IsError r
    → Sound (if b then err (returned score_error) else if c then err (returned score_max) else r)
branches-Sound true c r h = inl refl
branches-Sound false true r h = inr refl
branches-Sound false false r h = Ends-IsMark r h

result-Sound :
    (r : Result Stop ℤ) (s : ℤ)
    → Sound r
    → (elim r [ ok s ↦ some s | err (returned s) ↦ some s | err panicked ↦ none ]) ≡ some s
    → (s ≡ score_error) ⊎ (s ≡ score_max) ⊎ ((n : ℕ) × (s ≡ pos n))
result-Sound (ok t) s (n, q) e = inr (inr (n, ground arith))
result-Sound (err (returned t)) s h e = ground arith
result-Sound (err panicked) s h e = absurd (ground arith)

module _ (fl : Floats) where
  open fl use {F}

  clamp_nonneg : (w : ℤ) → (n : ℕ) × ((if ltb_ℤ w (pos 0) then pos 0 else w) ≡ pos n)
  clamp_nonneg (pos n) = (n, ground arith)
  clamp_nonneg (negsuc n) = (0, ground arith)

  predict_score-Ends :
      (env : PowerEnv F) (nc : NodeConfig) (ep : EndpointTerm) (b a i d : F)
      → Ends IsError (predict_score fl env nc ep b a i d)
  unfolding predict_score
  predict_score-Ends env nc ep b a i d =
      bind-Ends IsError (or_fail (env.predict nc.namespace ep b i d) _) _ (or_fail-IsError _) λ x.
        bind-Ends IsError (or_fail (env.predict nc.namespace ep a i d) _) _ (or_fail-IsError _)
          λ y. clamp_nonneg (fl.to_int (fl.sub y x))

  choose_endpoint-IsError :
      (env : PowerEnv F) (nc : NodeConfig) (s : ℤ)
      → choose_endpoint fl env nc ≡ err (returned s)
      → IsError s
  unfolding choose_endpoint
  choose_endpoint-IsError env nc s e = ground arith

  pub score_formatted-Ends :
      (env : PowerEnv F) (name : Text) (b a : F) → Ends IsError (score_formatted fl env name b a)
  unfolding score_formatted
  score_formatted-Ends env name b a =
      bind-Ends IsError _ _ (or_fail-IsError (env.inlet_temp name)) λ ip.
        bind-Ends IsError _ _ (or_fail-IsError (env.delta_p name)) λ dp.
          bind-Ends IsError _ _ (deref-IsError ip) λ i.
            bind-Ends IsError _ _ (deref-IsError dp) λ d.
              bind-Ends IsError _ _ (or_fail-IsError env.node_configs) λ ncs.
                bind-Ends IsError _ _ (or_fail-IsError (find_node_config name ncs)) λ nc.
                  bind-Ends IsError _ _ (choose_endpoint-IsError env nc)
                    λ ep. predict_score-Ends env nc ep b a i d

  pub score_steps-Sound :
      (env : PowerEnv F) (args : MinimizePowerArgs F) (pod : Pod F) (name : Text)
      → Sound (score_steps fl env args pod name)
  unfolding score_steps
  score_steps-Sound env args pod name =
      bind-Ends IsMark _ _ (λ s e. inl (or_fail-IsError (env.node_info name) s e))
        λ info.
          bind-Ends IsMark _ _ (λ s e. inl (or_fail-IsError (env.node_usage info.node.name) s e))
            λ p.
              bind-Ends IsMark _ _ (λ s e. inl (deref-IsError p s e))
                λ usage. branches-Sound _ _ _ (score_formatted-Ends env name _ _)

  -- What `Score` returns is the error mark, the overcommitment mark, or a natural number of watts.
  score_range :
      (env : PowerEnv F) (args : MinimizePowerArgs F) (pod : Pod F) (name : Text) (s : ℤ)
      → score fl env args pod name ≡ some s
      → (s ≡ score_error) ⊎ (s ≡ score_max) ⊎ ((n : ℕ) × (s ≡ pos n))
  unfolding score
  score_range env args pod name s e =
      result-Sound (score_steps fl env args pod name) s (score_steps-Sound env args pod name) e

-- No client returns nil without an error.
pub record NeverNil {F : Type 0} (env : PowerEnv F) : Type 0 where
  pub usage : (name : Text) → env.node_usage name ≢ some none
  pub inlet : (name : Text) → env.inlet_temp name ≢ some none
  pub delta : (name : Text) → env.delta_p name ≢ some none
  pub endpoint : (ns : Text) (ep : EndpointTerm) → env.predictor_endpoint ns ep ≢ some none

abbrev pub Calm {ℓ} : {A : Type ℓ} → Result Stop A → Type 0
Calm (ok a) = Unit
Calm (err (returned s)) = Unit
Calm (err panicked) = ⊥

bind-Calm {ℓ κ} :
    {A : Type ℓ} {B : Type κ} (r : Result Stop A) (f : A → Result Stop B)
    → Calm r
    → ((a : A) → r ≡ ok a → Calm (f a))
    → Calm (r >>= f)
bind-Calm (ok a) f h k = k a refl
bind-Calm (err (returned s)) f h k = tt
bind-Calm (err panicked) f h k = h

or_fail-Calm : {A : Type 0} (o : Option A) (s : ℤ) → Calm (or_fail o (returned s))
or_fail-Calm none s = tt
or_fail-Calm (some a) s = tt

-- A pointer that a call has returned is not nil.
deref-Calm :
    {A : Type 0} (o : Option (Option A)) (p : Option A) (s : ℤ)
    → o ≢ some none
    → or_fail o (returned s) ≡ ok p
    → Calm (deref p)
deref-Calm none p s h e = absurd (ground arith)
deref-Calm (some none) none s h e = h refl
deref-Calm (some (some a)) none s h e = absurd (ground arith)
deref-Calm (some o) (some a) s h e = tt

branches-Calm :
    (b c : Bool) (r : Result Stop ℤ)
    → Calm r
    → Calm (if b then err (returned score_error) else if c then err (returned score_max) else r)
branches-Calm true c r h = tt
branches-Calm false true r h = tt
branches-Calm false false r h = h

module _ (fl : Floats) (env : PowerEnv fl.F) (h : NeverNil env) where
  choose_endpoint-Calm : (nc : NodeConfig) → Calm (choose_endpoint fl env nc)
  unfolding choose_endpoint
  choose_endpoint-Calm nc =
      elim (Option-cases nc.spec.predictor.power_consumption_endpoint_provider) [
        | inl e ↦ rw (e, choose_endpoint) tt
        | inr (p, e) ↦
            rw (e, choose_endpoint)
              (bind-Calm _ _ (or_fail-Calm (env.predictor_endpoint nc.namespace p) _) λ a q.
                bind-Calm _ _
                  (deref-Calm (env.predictor_endpoint nc.namespace p) a _
                    (h.endpoint nc.namespace p) q)
                  λ ep _. tt)
      ]

  pub score_formatted-Calm : (name : Text) (b a : fl.F) → Calm (score_formatted fl env name b a)
  unfolding score_formatted predict_score
  score_formatted-Calm name b a = bind-Calm _ _ (or_fail-Calm (env.inlet_temp name) _) λ ip iq.
      bind-Calm _ _ (or_fail-Calm (env.delta_p name) _) λ dp dq.
        bind-Calm _ _ (deref-Calm (env.inlet_temp name) ip _ (h.inlet name) iq) λ i _.
          bind-Calm _ _ (deref-Calm (env.delta_p name) dp _ (h.delta name) dq) λ d _.
            bind-Calm _ _ (or_fail-Calm env.node_configs _) λ ncs _.
              bind-Calm _ _ (or_fail-Calm (find_node_config name ncs) _) λ nc _.
                bind-Calm _ _ (choose_endpoint-Calm nc) λ ep _.
                  bind-Calm _ _ (or_fail-Calm (env.predict nc.namespace ep b i d) _) λ x _.
                    bind-Calm _ _ (or_fail-Calm (env.predict nc.namespace ep a i d) _) λ y _. tt

  score_steps-Calm :
      (args : MinimizePowerArgs fl.F) (pod : Pod fl.F) (name : Text)
      → Calm (score_steps fl env args pod name)
  unfolding score_steps
  score_steps-Calm args pod name = bind-Calm _ _ (or_fail-Calm (env.node_info name) _) λ info _.
      bind-Calm _ _ (or_fail-Calm (env.node_usage info.node.name) _) λ p q.
        bind-Calm _ _ (deref-Calm (env.node_usage info.node.name) p _ (h.usage info.node.name) q)
          λ u _. branches-Calm _ _ _ (score_formatted-Calm name _ _)

  -- Where no client returns nil without an error, `Score` returns a score for every pod and node.
  pub score_total :
      (args : MinimizePowerArgs fl.F) (pod : Pod fl.F) (name : Text)
      → (s : ℤ) × (score fl env args pod name ≡ some s)
  unfolding score
  score_total args pod name =
      calm (score_steps fl env args pod name) (score_steps-Calm args pod name)
    where
      calm :
          (r : Result Stop ℤ)
          → Calm r
          → (s : ℤ) × ((elim r [ ok s ↦ some s | err (returned s) ↦ some s | err panicked ↦ none ])
              ≡ some s)
      calm (ok s) c = (s, refl)
      calm (err (returned s)) c = (s, refl)
      calm (err panicked) c = absurd c

-- If the metrics client returns nil without an error for a node that the snapshot knows, `Score`
-- panics on that node, for every pod.
score_panics :
    (fl : Floats) (env : PowerEnv fl.F) (args : MinimizePowerArgs fl.F) (pod : Pod fl.F)
    (name : Text) (info : NodeInfo fl.F)
    → env.node_info name ≡ some info
    → env.node_usage info.node.name ≡ some none
    → score fl env args pod name ≡ none
unfolding score score_steps
score_panics fl env args pod name info e f =
    rw (e, score, score_steps) (rw (f, score, score_steps) refl)
