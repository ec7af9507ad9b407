-- ===== src/Tests.antt =====
-- Runs of the model on concrete inputs, and the theorems at inputs that meet their hypotheses.
mod Samples
mod Codec
mod Entries
mod Storage
mod Transcripts
mod Pages
mod Fleet
mod Polling
mod Captures
mod Reading
mod Views
mod Forms
mod Requests
