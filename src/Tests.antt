-- ===== src/Tests.antt =====
-- Concrete collections, documents and resolvers, on which the theorems are applied.
mod Sorting
mod Collections
mod Documents
mod Customs
mod Builtins
mod Commands
mod Scripts
mod Texts
mod Printing
mod Machines
mod Options
mod Programs
mod Objects
mod Definitions
mod Surveys
mod Reports
mod Overrides
mod Metadata
