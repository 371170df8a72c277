-- ===== src/Metrics.antt =====
-- src/domain/enums.ts and src/metrics: which upstream values are recognised, and their labels.
pub mod Enums
pub mod EnumRender
pub mod States
