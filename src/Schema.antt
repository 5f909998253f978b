-- ===== src/Schema.antt =====
-- Tables and their columns: the data types of memstore/common/data_type.go, the model of
-- metastore/common/model.go, and the validator of metastore/validator.go.
pub mod DataType
pub mod TypeLaws
pub mod Table
pub mod Checks
pub mod Validator
pub mod Valid
pub mod Update
