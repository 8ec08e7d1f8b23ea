-- ===== src/External.antt =====
-- External facts: lib/src/facts/external and the part of lib/src/facts/collection.cc that picks a
-- resolver for a file. A file's contents, or the events that a parser reports, are arguments.
pub mod Json
pub mod Yaml
pub mod Lines
