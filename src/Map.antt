-- ===== src/Map.antt =====
-- `HashMap<String, V>` and `HashSet<String>` of the Rust standard library: association lists and
-- lists without repetition. The order of a list stands for the unspecified order of iteration.
mod Laws
mod Defs
pub use Laws.*
unfoldable pub use Defs.*
