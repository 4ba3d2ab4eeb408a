-- ===== src/Database.antt =====
-- PostgreSQL as the program uses it: the tables of api/migrations, one statement or one
-- transaction at a time, and reasoning about both.
pub mod Rows
pub mod Keys
pub mod Tx
pub mod Post
pub mod Single
pub mod Keeps
