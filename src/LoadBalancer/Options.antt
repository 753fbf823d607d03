-- ===== src/LoadBalancer/Options.antt =====
-- wao-loadbalancer/pkg/proxy/nftables/wao.go: the options of WAOLB, their defaults and validation.
use waok8s.Prelude.{
  ◌≡◌, ◌≢◌, ◌⊎◌, ◌↔◌, false, ◌&&◌, not, Text, [], text_eq, text_eq_iff, Result, ok, err, arith,
  if◌then◌else◌,
}
use waok8s.Prelude.Int64.{ℤ, pos, eq_ℤ, eq_ℤ_iff, ltb_ℤ}
use waok8s.LoadBalancer.ScoreNode.{cpu_usage_format_raw, cpu_usage_format_percent}

-- `WAOLBOptions`: durations in nanoseconds.
pub record WaolbOptions : Type 0 where
  pub ip_family : Text
  pub metrics_cache_ttl : ℤ
  pub predictor_cache_ttl : ℤ
  pub cpu_usage_format : Text

-- 30 seconds and 30 minutes.
abbrev pub default_metrics_cache_ttl : ℤ
default_metrics_cache_ttl = pos 30_000_000_000

abbrev pub default_predictor_cache_ttl : ℤ
default_predictor_cache_ttl = pos 1_800_000_000_000

-- `DefaultingWAOLBOptions`
unfoldable pub defaulting_waolb_options : WaolbOptions → WaolbOptions
unfolding text_eq
defaulting_waolb_options opts = record opts {
  metrics_cache_ttl =
      if eq_ℤ opts.metrics_cache_ttl (pos 0)
      then default_metrics_cache_ttl
      else opts.metrics_cache_ttl;
  predictor_cache_ttl =
      if eq_ℤ opts.predictor_cache_ttl (pos 0)
      then default_predictor_cache_ttl
      else opts.predictor_cache_ttl;
  cpu_usage_format =
      if text_eq opts.cpu_usage_format [] then cpu_usage_format_percent else opts.cpu_usage_format;
}

pub data OptionsError : Type 0 where
  no_ip_family bad_metrics_cache_ttl bad_predictor_cache_ttl bad_cpu_usage_format : OptionsError

-- `ValidatingWAOLBOptions`
unfoldable pub validating_waolb_options : WaolbOptions → Result OptionsError (Unit {0})
unfolding text_eq
validating_waolb_options opts =
    if text_eq opts.ip_family []
    then err no_ip_family
    else if not (ltb_ℤ (pos 0) opts.metrics_cache_ttl)
    then err bad_metrics_cache_ttl
    else if not (ltb_ℤ (pos 0) opts.predictor_cache_ttl)
    then err bad_predictor_cache_ttl
    else if not (text_eq opts.cpu_usage_format cpu_usage_format_raw)
        && not (text_eq opts.cpu_usage_format cpu_usage_format_percent)
    then err bad_cpu_usage_format
    else ok tt

-- Options with the defaults filled in are valid exactly if the given options name an IP family, have
-- no negative lifetime, and have one of the two usage formats or none.
validating-defaulting :
    (opts : WaolbOptions)
    → (validating_waolb_options (defaulting_waolb_options opts) ≡ ok tt) ↔ (
        (opts.ip_family ≢ [])
        × (ltb_ℤ opts.metrics_cache_ttl (pos 0) ≡ false)
        × (ltb_ℤ opts.predictor_cache_ttl (pos 0) ≡ false)
        × ((opts.cpu_usage_format ≡ [])
            ⊎ (opts.cpu_usage_format ≡ cpu_usage_format_raw)
            ⊎ (opts.cpu_usage_format ≡ cpu_usage_format_percent)))
unfolding validating_waolb_options defaulting_waolb_options
validating-defaulting opts = ground (
  arith,
  text_eq_iff opts.ip_family [],
  text_eq_iff opts.cpu_usage_format [],
  text_eq_iff opts.cpu_usage_format cpu_usage_format_raw,
  text_eq_iff opts.cpu_usage_format cpu_usage_format_percent,
  eq_ℤ_iff opts.metrics_cache_ttl (pos 0),
  eq_ℤ_iff opts.predictor_cache_ttl (pos 0),
)
