-- ===== src/Core.antt =====
-- internal/core: the data model of a site, its validation, resource limits and host capacity.
pub mod Ids
pub mod Domain
pub mod RelativePath
pub mod Model
pub mod Validate
pub mod Capacity
