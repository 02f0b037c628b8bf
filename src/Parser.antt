-- ===== src/Parser.antt =====
-- internal/parser: what is read from the bodies of requests and responses. One module for each
-- provider; Types and Sse hold what the providers share.
pub mod Types
pub mod Sse
pub mod Anthropic
pub mod OpenAi
pub mod SapAiCore
pub mod Request
