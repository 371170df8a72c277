-- ===== src/Backends/Fmc/Sizing.antt =====
-- src/backends/fmc/sizing.ts: the projection of the request volume.
-- The warning names the three numbers that its text says. The quotient of doubles is compared exactly:
-- 210 is a double, and a quotient of integers above it is not rounded down to it.
use ftd_metrics_exporter.Prelude.{ℕ, ◌*◌, Option, none, some, leb, if◌then◌else◌}

-- FMC_REQUEST_BUDGET_PER_MINUTE, times WARNING_THRESHOLD_FRACTION.
abbrev pub warning_threshold : ℕ
warning_threshold = 210

pub record SizingWarning : Type 0 where
  pub device_count : ℕ
  pub family_count : ℕ
  pub poll_interval_seconds : ℕ

unfoldable pub project_fmc_request_volume :
    (device_count family_count poll_interval_seconds : ℕ) → Option SizingWarning
project_fmc_request_volume device_count family_count poll_interval_seconds =
    if leb (device_count * family_count * 60) (warning_threshold * poll_interval_seconds)
    then none
    else some (record {
      device_count = device_count;
      family_count = family_count;
      poll_interval_seconds = poll_interval_seconds;
    })
