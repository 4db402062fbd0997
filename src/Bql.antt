-- ===== src/Bql.antt =====
-- libraries/dbal/production/src/bql: the BQL language, from the text of a script to its sentences.
pub mod Lexer
pub mod Cursor
pub mod Lists
pub mod Sentences
pub mod Actions
pub mod Script
pub mod Spelling
