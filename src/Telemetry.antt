-- ===== src/Telemetry.antt =====
-- The adapters that turn the events of a client into telemetry: otel, internal/httpotel and
-- slogobserver.
pub mod Attributes
pub mod LogAttributes
pub mod Slog
pub mod Transport
