-- ===== src/Tests.antt =====
-- The theorems at concrete inputs, and runs of the definitions.
mod Data
mod Tables
mod Notes
mod Image
mod Reader
mod Parse
mod Written
mod Layout
mod Validation
mod Builder
mod Sections
mod Rewritten
mod Rebased
mod Assembled
