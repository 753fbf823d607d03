-- ===== src/Scheduler/Power/Args.antt =====
-- wao-scheduler/pkg/plugins/minimizepower/types.go and getArgs: defaults and validation of the
-- arguments.
use waok8s.Prelude.{
  ◌≡◌, refl, ◌≢◌, ◌⊎◌, inl, inr, false, ◌||◌, ◌&&◌, not, [], text_eq, text_eq_iff, Result, ok, err,
  arith, if◌then◌else◌, Result-cases,
}
use waok8s.Prelude.Int64.{ℤ, pos, eq_ℤ, eq_ℤ_iff}
use waok8s.Prelude.Float.{Floats}
use waok8s.Scheduler.Power.{MinimizePowerArgs, cpu_usage_format_raw, cpu_usage_format_percent}

-- 30 seconds and 30 minutes.
abbrev pub default_metrics_cache_ttl : ℤ
default_metrics_cache_ttl = pos 30_000_000_000

abbrev pub default_predictor_cache_ttl : ℤ
default_predictor_cache_ttl = pos 1_800_000_000_000

pub data ArgsError : Type 0 where
  wrong_type bad_assumption bad_format : ArgsError

module _ (fl : Floats) where
  open fl use {F, zero_f, div, eqb, ltf, of_int}

  -- The literal 0.5.
  abbrev pub default_pod_usage_assumption : F
  default_pod_usage_assumption = div (of_int (pos 1)) (of_int (pos 2))

  -- `Default`
  unfoldable pub default_args : MinimizePowerArgs F → MinimizePowerArgs F
  unfolding text_eq
  default_args args = record {
    metrics_cache_ttl =
        if eq_ℤ args.metrics_cache_ttl (pos 0)
        then default_metrics_cache_ttl
        else args.metrics_cache_ttl;
    predictor_cache_ttl =
        if eq_ℤ args.predictor_cache_ttl (pos 0)
        then default_predictor_cache_ttl
        else args.predictor_cache_ttl;
    pod_usage_assumption =
        if eqb args.pod_usage_assumption zero_f
        then default_pod_usage_assumption
        else args.pod_usage_assumption;
    cpu_usage_format =
        if text_eq args.cpu_usage_format [] then cpu_usage_format_raw else args.cpu_usage_format;
  }

  -- `Validate`: `none` is no error.
  unfoldable pub validate_args : MinimizePowerArgs F → Result ArgsError (Unit {0})
  unfolding text_eq
  validate_args args =
      if ltf args.pod_usage_assumption zero_f || ltf (of_int (pos 1)) args.pod_usage_assumption
      then err bad_assumption
      else if not (text_eq args.cpu_usage_format cpu_usage_format_raw)
          && not (text_eq args.cpu_usage_format cpu_usage_format_percent)
      then err bad_format
      else ok tt

  -- `getArgs`, for an object of the right type.
  unfoldable pub get_args : MinimizePowerArgs F → Result ArgsError (MinimizePowerArgs F)
  unfolding default_args validate_args
  get_args args =
      let filled = default_args args in
      elim (validate_args filled) [ err e ↦ err e | ok _ ↦ ok filled ]

  default_args-ttl :
      (args : MinimizePowerArgs F)
      → ((default_args args).metrics_cache_ttl ≢ pos 0)
        × ((default_args args).predictor_cache_ttl ≢ pos 0)
  unfolding default_args
  default_args-ttl args = (
    λ h. ground (arith, eq_ℤ_iff args.metrics_cache_ttl (pos 0)),
    λ h. ground (arith, eq_ℤ_iff args.predictor_cache_ttl (pos 0)),
  )

  validate_args-ok :
      (args : MinimizePowerArgs F)
      → validate_args args ≡ ok tt
      → (ltf args.pod_usage_assumption zero_f ≡ false)
        × (ltf (of_int (pos 1)) args.pod_usage_assumption ≡ false)
        × ((args.cpu_usage_format ≡ cpu_usage_format_raw)
            ⊎ (args.cpu_usage_format ≡ cpu_usage_format_percent))
  unfolding validate_args
  validate_args-ok args h = ground (
    arith,
    text_eq_iff args.cpu_usage_format cpu_usage_format_raw,
    text_eq_iff args.cpu_usage_format cpu_usage_format_percent,
  )

  -- Arguments that `getArgs` accepts have lifetimes other than 0, an assumption that is neither below
  -- 0 nor above 1, and one of the two usage formats; they are the given ones with the defaults filled in.
  get_args-accepted :
      (args : MinimizePowerArgs F) {out : MinimizePowerArgs F}
      → get_args args ≡ ok out
      → (out ≡ default_args args)
        × (out.metrics_cache_ttl ≢ pos 0)
        × (out.predictor_cache_ttl ≢ pos 0)
        × (ltf out.pod_usage_assumption zero_f ≡ false)
        × (ltf (of_int (pos 1)) out.pod_usage_assumption ≡ false)
        × ((out.cpu_usage_format ≡ cpu_usage_format_raw)
            ⊎ (out.cpu_usage_format ≡ cpu_usage_format_percent))
  unfolding get_args
  get_args-accepted args {out} e = elim (Result-cases (validate_args (default_args args))) [
    | inr (x, f) ↦ absurd (ground arith)
    | inl (u, f) ↦
        let same : out ≡ default_args args = ground arith in
        let (m, p) = default_args-ttl args in
        let (a, b, c) = validate_args-ok (default_args args) f in rw same (refl, m, p, a, b, c)
  ]
