-- ===== src/Junk.antt =====
-- junk_campaigns.py, junk_cleaner.py and junk_health.py: the scheduled cleaning of junk folders.
pub mod Evidence
pub mod Campaigns
pub mod Cleaner
pub mod Health
mod Tests
