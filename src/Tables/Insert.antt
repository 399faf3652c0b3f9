-- ===== src/Tables/Insert.antt =====
-- The mapping of one page in the tables, for `map` of kernel/src/mem/virt/mapper.rs.
pub mod Deeper
pub mod Result
