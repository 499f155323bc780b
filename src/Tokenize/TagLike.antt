-- ===== src/Tokenize/TagLike.antt =====
-- `tokenize_tag_like`, for HTML and XML: State has the tags' machine, Text and Tags its states, and
-- Step its loop. Order proves what `format_code` asserts of the tokens that the machine makes.
pub mod State
pub mod Text
pub mod Tags
pub mod Step
pub mod Scripts
pub mod Slices
pub mod Order
