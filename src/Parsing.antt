-- ===== src/Parsing.antt =====
-- internal/parsing: the parsers of process logs.
pub mod Expressions
pub mod Content
pub mod Payload
pub mod Prompt
pub mod Window
pub mod Legacy
pub mod Telemetry
pub mod Range
