-- ===== src/Tests.antt =====
-- Runs of the definitions on concrete values, and instances of the theorems.
mod Wire
mod Trees
mod Peers
mod Scans
mod Commits
mod Transfers
