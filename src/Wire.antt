-- ===== src/Wire.antt =====
-- internal/wire: the canonical encoding, the identifiers and the closed codes.
pub mod Code
pub mod CodeNames
pub mod Limits
pub mod Utf8
pub mod Decimal
pub mod Primitives
pub mod Clock
pub mod Ids
pub mod Value
pub mod Encode
pub mod Sorted
pub mod Parsed
pub mod Scan
pub mod Parse
pub mod Reader
