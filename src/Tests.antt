-- ===== src/Tests.antt =====
-- Runs of the definitions on concrete inputs, and the theorems at inputs that meet their hypotheses.
mod Samples
mod Core
mod Remote
mod Exposed
mod Loaded
mod Second
mod Cached
mod Replies
mod Session
mod Served
mod Stream
mod Settings
mod Upstream
