-- ===== src/Query.antt =====
-- src/lib/schwa/dr/query.h and query.cc: the query language over documents.
pub mod Syntax
pub mod Numbers
pub mod Grammar
pub mod Parser
pub mod Int64
pub mod Value
pub mod Context
pub mod Variable
pub mod Operators
pub mod Functions
pub mod Eval
