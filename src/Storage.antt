-- ===== src/Storage.antt =====
-- src/storage_layout: the formats of keys, rows and column values.
pub mod Cursor
pub mod Tag
pub mod Tuple
pub mod Ordered
pub mod Key
pub mod Prefix
pub mod Keys
pub mod Records
pub mod Fixed
pub mod RawRows
pub mod FixedRow
pub mod Projected
pub mod RowRecord
pub mod RowWriter
pub mod Numeric
mod Examples
