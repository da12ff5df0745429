-- ===== src/Database.antt =====
-- The Postgres database of the gateway: the tables that services/postgre.ts creates, and the
-- queries of models/jobs.ts and models/operations.ts.
pub mod Schema
pub mod Effect
pub mod Jobs
pub mod Order
pub mod Operations
pub mod Answers
pub mod Keeps
