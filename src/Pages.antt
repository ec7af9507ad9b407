-- ===== src/Pages.antt =====
-- The logic of the console's pages (web/src/pages), apart from their markup.
pub mod Poller
pub mod Dashboard
pub mod Picker
pub mod Events
pub mod Sessions
pub mod Terminal
pub mod Transcript
pub mod FileTree
pub mod Traces
