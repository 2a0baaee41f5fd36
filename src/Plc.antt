-- ===== src/Plc.antt =====
-- The leaf functions of the PLC libraries: the condition evaluator's character tests and stack
-- (Cond) and the symbol map's byte swaps and decimal widths (Map).
pub mod Cond
pub mod Map
pub mod Width
mod Tests
