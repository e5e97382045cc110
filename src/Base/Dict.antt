-- ===== src/Base/Dict.antt =====
-- Python's dict with identifiers as keys: an association list in the order of insertion. A write
-- to a present key keeps its place, as Python's does.
mod Defs
mod Values
mod Scans
unfoldable pub use Defs.*
pub use Values.*
pub use Scans.*
