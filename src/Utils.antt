-- ===== src/Utils.antt =====
-- utils.py: text for AppleScript, bodies for the transport, names, senders, subjects and threads.
pub mod Escape
pub mod Body
pub mod Thread
pub mod Filename
pub mod Mailbox
pub mod Subject
pub mod MessageIds
pub mod Senders
pub mod Colors
mod Tests
