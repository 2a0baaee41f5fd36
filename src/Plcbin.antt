-- ===== src/Plcbin.antt =====
-- The parser of PLC binary modules in libplcbin: a file is its bytes with a read position (Files),
-- a handle is returned changed (Code), the token section fills a table of words (Info) by the
-- token tables (Tokens). A client's loop over the code section stands in Calls and Whole.
-- A null handle is left out. An int32_t is its 32-bit pattern.
pub mod Files
pub mod Tokens
pub mod Code
pub mod Info
pub mod Calls
pub mod Whole
mod Tests
