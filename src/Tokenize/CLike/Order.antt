-- ===== src/Tokenize/CLike/Order.antt =====
-- The tokens of `tokenize_c_like` are in order and end at character boundaries, and its fuel
-- suffices: one child for the invariants, one for each group of branches, and one for the loop.
pub mod Inv
pub mod Raw
pub mod Comments
pub mod Quotes
pub mod Words
pub mod Loop
