-- ===== src/Ruby.antt =====
-- Custom facts: lib/src/ruby. Ruby itself is not modelled: a block is a function that may raise,
-- and a `VALUE` is told apart as far as the code asks about it.
pub mod Value
pub mod Merge
pub mod Chunk
pub mod Resolution
pub mod Fact
pub mod Module
pub mod Written
pub mod Confines
