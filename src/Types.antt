-- ===== src/Types.antt =====
-- The SQL values and column types of src/types/column_value.rs and src/types/data_type.rs.
pub mod Value
pub mod DataType
pub mod Typing
pub mod Schema
pub mod Decimal
pub mod Floats
pub mod Compare
pub mod Text
