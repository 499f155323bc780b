-- ===== src/Tokenize/CLike.antt =====
-- `tokenize_c_like`, for C++, JS, Rust, Python and their like.
-- State has what the closures and loops share, Raw, Comments, Quotes and Words the branches of the
-- main loop, and Step the loop itself. Order proves what `format_code` asserts of the tokens.
pub mod State
pub mod Raw
pub mod Comments
pub mod Quotes
pub mod Words
pub mod Step
pub mod Order
