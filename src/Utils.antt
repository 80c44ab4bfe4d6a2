-- ===== src/Utils.antt =====
-- The helpers under src/utils.
pub mod ItemList
pub mod Wire
pub mod Hash
mod Tests
