-- ===== src/Paging.antt =====
-- Physical frames and page directories: kernel/paging.cpp and kernel/include/paging.h, with pages of
-- 4 MB.
mod Types
mod Frames
mod Spaces
pub mod Entries
pub mod Tracking
pub mod Counts
pub mod Invariant
pub mod Sharing
pub mod AddPage
pub mod Mapping
pub mod RemovePage
pub mod Clone
pub mod Boot
pub mod Booted
mod Tests
unfoldable pub use Types.*
unfoldable pub use Frames.*
unfoldable pub use Spaces.*
