-- ===== src/Tests.antt =====
-- Runs of the properties on concrete inputs.
mod Data
mod Times
mod Plans
mod Rows
mod Screens
mod Services
mod Articles
mod Logbook
mod Builds
mod Backups
mod Differences
