-- ===== src/Task.antt =====
-- The tasks and the scheduler of kernel/task.cpp and kernel/include/ktask.h.
mod Types
mod Schedule
mod Create
pub mod Queue
pub mod Order
pub mod Rounds
pub mod Exit
pub mod Saves
pub mod Context
pub mod Runs
mod Tests
unfoldable pub use Types.*
unfoldable pub use Schedule.*
unfoldable pub use Create.*
