-- ===== src/Base/Bits.antt =====
-- A `usize` of 64 bits as a native number: its single bits under `&`, `|` and `!`, and the
-- arithmetic of fields that are packed by `|` and taken apart by masks.
mod Step
mod Words
mod Fields
unfoldable pub use Words.{complement, test_bit}
pub use Step.{bit_and_step}
pub use Words.*
pub use Fields.*
