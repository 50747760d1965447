-- ===== src/Tests.antt =====
-- The theorems at concrete inputs.
mod Editing
mod Serving
mod Lifecycle
mod Protocol
mod Session
mod Paths
mod Notebooks
mod Generated
mod Replies
mod Lives
mod Overloads
