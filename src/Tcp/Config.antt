-- ===== src/Tcp/Config.antt =====
-- tcpclient/config.go and normalizeCheckConfig of tcpclient/check.go: the settings of a health check.
use clientkit.Prelude.{
  Bool, true, false, not, ◌||◌, ℤ, pos, beq_ℤ, Result, ok, err, ◌>>=◌, ◌>>◌, refuse_if,
  if◌then◌else◌,
}
use clientkit.Http.Override.{DurationError, duration}

-- Config.Probe of a value that is a ConnectionProbeFunc and nil.
pub data ProbeValue : Type 0 where
  no_probe : ProbeValue
  nil_probe_func : ProbeValue
  a_probe : ProbeValue

pub record CheckConfig : Type 0 where
  pub enabled : Bool
  pub timeout : ℤ
  pub disable_timeout : Bool
  pub stale_after : ℤ
  pub disable_stale_after : Bool
  pub probe : ProbeValue

pub record NormalizedCheckConfig : Type 0 where
  pub enabled : Bool
  pub timeout : ℤ
  pub stale_after : ℤ
  pub probe : ProbeValue

pub data CheckConfigError : Type 0 where
  check_requires_enabled : CheckConfigError
  check_timeout_invalid : DurationError → CheckConfigError
  check_stale_after_invalid : DurationError → CheckConfigError
  check_probe_nil : CheckConfigError

abbrev is_probe : ProbeValue → Bool
is_probe no_probe = false
is_probe _ = true

abbrev is_nil_probe : ProbeValue → Bool
is_nil_probe nil_probe_func = true
is_nil_probe _ = false

abbrev pub default_check_timeout : ℤ
default_check_timeout = pos 5_000_000_000

abbrev pub default_check_stale_after : ℤ
default_check_stale_after = pos 90_000_000_000

abbrev with_error {ℓ} :
    {A : Type ℓ}
    → (DurationError → CheckConfigError)
    → Result DurationError A
    → Result CheckConfigError A
with_error wrap (ok value) = ok value
with_error wrap (err error) = err (wrap error)

abbrev is_touched : CheckConfig → Bool
is_touched cfg =
    not (beq_ℤ cfg.timeout (pos 0))
    || cfg.disable_timeout
    || not (beq_ℤ cfg.stale_after (pos 0))
    || cfg.disable_stale_after
    || is_probe cfg.probe

abbrev enabled_check_config : CheckConfig → Result CheckConfigError NormalizedCheckConfig
enabled_check_config cfg =
    with_error check_timeout_invalid
      (duration cfg.timeout cfg.disable_timeout default_check_timeout (pos 0))
    >>= λ timeout.
        with_error check_stale_after_invalid
          (duration cfg.stale_after cfg.disable_stale_after default_check_stale_after (pos 0))
        >>= λ stale_after.
            refuse_if (is_nil_probe cfg.probe) check_probe_nil
            >> ok (record {
              enabled = true;
              timeout = timeout;
              stale_after = stale_after;
              probe = cfg.probe;
            })

unfoldable pub normalize_check_config : CheckConfig → Result CheckConfigError NormalizedCheckConfig
normalize_check_config cfg =
    if cfg.enabled
    then enabled_check_config cfg
    else refuse_if (is_touched cfg) check_requires_enabled
      >> ok (record { enabled = false; timeout = pos 0; stale_after = pos 0; probe = no_probe })
