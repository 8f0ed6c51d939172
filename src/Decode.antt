-- ===== src/Decode.antt =====
-- The decoders of http/http_decode.c, which undo the encodings by which a request can hide its
-- content from the rules.
pub mod Digit
pub mod Percent
pub mod Escape
pub mod Path
pub mod Html
pub mod Full
