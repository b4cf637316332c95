-- ===== src/Tokenizer.antt =====
-- src/lib/schwa/tokenizer: what the tokenizer does for each token that its generated machine finds.
pub mod Stream
pub mod State
pub mod Actions
pub mod Sentences
pub mod Run
pub mod Kept
pub mod Nesting
