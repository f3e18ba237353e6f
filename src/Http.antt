-- ===== src/Http.antt =====
-- Package httpclient: one HTTP operation, from the caller's request to a classified result.
pub mod Outcome
pub mod Header
pub mod ContextHeaders
pub mod Propagation
pub mod Response
pub mod Safety
pub mod Classifier
pub mod Retry
pub mod Override
pub mod Delay
pub mod Meeting
pub mod Execution
pub mod Origin
pub mod Operation
