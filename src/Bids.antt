-- ===== src/Bids.antt =====
-- services/bids and apps/api/routers/bids.py: bid workspaces and their reminders.
pub mod Reminders
pub mod Workspace
