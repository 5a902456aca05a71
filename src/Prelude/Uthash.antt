-- ===== src/Prelude/Uthash.antt =====
-- The vendored uthash/uthash.h as an interface, and a table that meets it.
mod Interface
mod Assoc
mod Keyed
mod Iter
pub use Interface.{Uthash}
pub use Assoc.{assoc}
pub use Keyed.{keyed}
pub use Iter.{values, Entries, keyed_entries}
