-- ===== src/Types.antt =====
-- `src/common/types`: fragments and addresses.
pub mod Fragment
pub mod Address
mod Tests
