-- ===== src/Models.antt =====
-- src/models: the documents of the job collection, and the JSON values they hold.
pub mod Json
pub mod Job
