-- ===== src/Database.antt =====
-- The database layer (src/database and the entities): column enumerations, the rows of the
-- tables, and the mapper behind its laws.
pub mod Rows
pub mod Lists
pub mod Orm
pub mod Counting
pub mod Sorting
pub mod Ordered
pub mod InMemory
pub mod Enums
pub mod Json
pub mod Entities
pub mod RuleEntities
pub mod PipelineEnums
pub mod PipelineEntities
