-- ===== src/Vfs.antt =====
-- The tree of files and directories of utils/vfs.cpp and utils/include/vfs.h.
mod Tests
mod Names
mod Nodes
mod Ustar
pub mod Paths
pub mod Lookup
pub mod Returns
pub mod Growth
pub mod Make
pub mod Walks
pub mod Directories
pub mod Files
pub mod Total
pub mod Fields
pub mod Header
pub mod Archive
unfoldable pub use Names.*
unfoldable pub use Nodes.*
unfoldable pub use Ustar.*
