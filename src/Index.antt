-- ===== src/Index.antt =====
-- src/index.h and src/index.cc: the index as a tree of directories, cut into pieces of work.
pub mod Entry
pub mod Splits
pub mod Dirs
pub mod Scan
pub mod Open
pub mod Place
pub mod Candidates
pub mod Whole
