-- ===== src/Harness/Tests.antt =====
-- Runs of the harness, on a disk with one file.
mod Files
mod Batches
mod Disks
