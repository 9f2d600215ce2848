-- ===== src/Store.antt =====
-- The database tables that the services share (rows written by services/, outreach/ and
-- email_monitor/), and the statements on them that more than one service runs.
-- Times are whole seconds: the code writes ISO 8601 texts of one width, which sort like the times.
pub mod Schema
pub mod Rows
pub mod Distinct
