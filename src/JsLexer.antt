-- ===== src/JsLexer.antt =====
-- jslexer.go: the lexer that takes the quoted strings out of JavaScript.
--   State, Literal, Tokens, Steps    the lexer: its state, emitString, numbers and operators, and the
--                                    state functions with run and lex
--   Bounds to Ends                   what each state function finds and leaves, and that lex ends
--   Quoted to RoundTrip              a text written as a literal, and scripts of literals
pub mod State
pub mod Literal
pub mod Tokens
pub mod Steps
pub mod Bounds
pub mod Shorter
pub mod Ready
pub mod Operators
pub mod Runes
pub mod PlainText
pub mod Comments
pub mod Loops
pub mod Ends
pub mod Quoted
pub mod QuotedLoop
pub mod QuotedItem
pub mod Scripts
pub mod RoundTrip
pub mod Tests
