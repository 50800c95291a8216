-- ===== src/Drafts.antt =====
-- The drafts: what draft_builder.py writes into one, and what drafts.py remembers of it.
pub mod Builder
pub mod Seeds
mod Tests
