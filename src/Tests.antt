-- ===== src/Tests.antt =====
-- Runs at concrete inputs, and the theorems at concrete inputs.
mod Io
mod Pool
mod BlockVector
mod Wire
mod Dynamic
mod Unicode
mod Query
mod Documents
mod Tokenizer
mod Instances
