-- ===== src/Pipeline.antt =====
-- src/crawler/pipeline: the URL normalizer and the URL filter as lists of steps.
pub mod Percent
pub mod Context
pub mod Slash
pub mod Build
pub mod Normalizer
pub mod Filter
pub mod Tests
