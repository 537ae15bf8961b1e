-- ===== src/Compiler.antt =====
-- crates/compiler: the lexer of the Polytope language.
pub mod Chars
pub mod Lexer
mod Examples
