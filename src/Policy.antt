-- ===== src/Policy.antt =====
-- tessera/policy: the schema of policies, their conditions and the engine.
pub mod Schema
pub mod Eval
pub mod Matchers
pub mod Conditions
pub mod Engine
pub mod RegexSafety
pub mod ActionVerbs
pub mod Loader
pub mod Cloud
