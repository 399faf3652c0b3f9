-- ===== src/Word.antt =====
-- The 64-bit words of the allocation bitmap (kernel/src/mem/phys.rs): single bits, the `|=` that
-- sets one, the `&= !` that clears one, and the language's `trailing_ones`.
pub mod Bits
pub mod Ones
