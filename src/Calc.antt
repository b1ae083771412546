-- ===== src/Calc.antt =====
-- packetdrill/calc.tab.c and packetdrill/lex.yy.c: the calculator.
pub mod Tables
pub mod State
pub mod Reduce
pub mod Recover
pub mod Parser
pub mod Grammar
pub mod ScannerTables
pub mod Scanner
pub mod Buffers
pub mod Calculator
pub mod Printing
mod Tests
