-- ===== src/Backup.antt =====
-- Backup on deletion (internal/controller/backup.go), restore (internal/controller/restore.go) and
-- the periodic backup (internal/controller/s3.go), on the world of the auto-update machine.
pub mod Deletion
pub mod Restore
pub mod Schedule
