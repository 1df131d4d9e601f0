-- ===== src/Language.antt =====
-- The text of programs and its positions, the expressions of the language and their conversion to
-- De Bruijn indices.
pub mod Cells
pub mod DeBruijn
pub mod Span
pub mod Source
pub mod Signature
pub mod PatternCheck
