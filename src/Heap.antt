-- ===== src/Heap.antt =====
-- `utils::Allocator` of utils/allocator.cpp and utils/include/allocator.h.
mod Tests
mod Types
mod Malloc
mod Free
pub mod Chunks
pub mod Align
pub mod Grow
pub mod Search
pub mod Cutting
pub mod Take
pub mod Allocate
pub mod Merging
pub mod Release
pub mod Finding
pub mod Returns
mod Sbrk
pub mod Growth
pub mod Pages
pub mod Start
unfoldable pub use Types.*
unfoldable pub use Malloc.*
unfoldable pub use Free.*
unfoldable pub use Sbrk.*
