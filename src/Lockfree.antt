-- ===== src/Lockfree.antt =====
-- The folder idea/lockfree: tagged pointers, and a stack behind a mutex, a compare-exchange, and a
-- compare-exchange on tagged pointers.
pub mod TagPtr
pub mod Stack
pub mod Queue
mod Tests
