-- ===== src/Text.antt =====
-- The pure text functions: shared/text and modules/ingestion/domain/keyword-match.ts. A text is the
-- list of its code points.
pub mod Normalize
pub mod Characters
pub mod Keywords
pub mod Occurrence
pub mod PatternCache
pub mod Tests
