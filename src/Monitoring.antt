-- ===== src/Monitoring.antt =====
-- monitoring: the client of OpenTelemetry.
pub mod Otel
