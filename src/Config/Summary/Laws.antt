-- ===== src/Config/Summary/Laws.antt =====
-- src/config/redact-summary.ts: the summary shows no credential.
use ftd_metrics_exporter.Prelude.{◌≡◌, refl}
use ftd_metrics_exporter.Config.{BackendConfig, scc_backend, fmc_backend, Secret, AppConfig}
use ftd_metrics_exporter.Config.Summary.{
  redact_value, scc_lines, fmc_lines, summary_lines, join, format_config_summary,
}

-- The backend with another credential.
abbrev pub with_secret : Secret → BackendConfig → BackendConfig
with_secret secret (scc_backend c) = scc_backend (record c { api_token = secret })
with_secret secret (fmc_backend c) = fmc_backend (record c { password = secret })

-- The summary is the same whatever the credential of the backend is.
pub format_config_summary-with_secret :
    (config : AppConfig) (secret : Secret)
    → format_config_summary (record config { backend = with_secret secret config.backend })
      ≡ format_config_summary config
unfolding format_config_summary summary_lines scc_lines fmc_lines redact_value
format_config_summary-with_secret config secret = go config.backend
  where
    go :
        (b : BackendConfig)
        → join "\n" (summary_lines (record config { backend = with_secret secret b }))
          ≡ join "\n" (summary_lines (record config { backend = b }))
    go (scc_backend c) = refl
    go (fmc_backend c) = refl
