-- ===== src/Catalog.antt =====
-- What the boundary keeps of upstream tools, and how it learns them: the catalogs of crates/boundary/src.
pub mod Outside
pub mod V2Operations
pub mod V2
pub mod Files
pub mod V3
