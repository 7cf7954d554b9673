-- ===== src/Rql.antt =====
-- rQL, the filter language: internal/rql.
pub mod Syntax
pub mod Operator
pub mod Lex
pub mod Parse
pub mod Values
pub mod Predicate
pub mod Sql
pub mod Agreement
mod Tests
