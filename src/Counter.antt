-- ===== src/Counter.antt =====
-- The counters that the run state and the quality summary keep: a Python `dict[str, int]`, or a
-- `Counter`, as its items in insertion order. A missing key counts 0.
mod Defs
mod Laws
pub use Laws.*
unfoldable pub use Defs.{Counter, get_count, increment, top_items}
