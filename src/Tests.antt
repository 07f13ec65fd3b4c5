-- ===== src/Tests.antt =====
-- The theorems at concrete inputs.
mod Sets
mod Columns
mod States
mod Catalogs
mod Chunks
mod Filters
mod Retries
mod Parquets
mod Threads
mod Backfills
mod Syncs
mod Occurrences
mod Attempts
mod Conditions
