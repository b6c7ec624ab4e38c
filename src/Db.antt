-- ===== src/Db.antt =====
-- internal/db: the database. The child has the queue of the job writer; the rest is SQL.
pub mod Writer
