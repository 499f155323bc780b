-- ===== src/Tokenize/TagLike/Order.antt =====
-- The tokens of the tags' machine are in order, and its fuel suffices: Inv has the invariant, Text
-- and Tags the states, and Loop the loop.
pub mod Inv
pub mod Text
pub mod Tags
pub mod Loop
pub mod Emit
pub mod EmitLoop
