-- ===== src/Samples.antt =====
-- Concrete parameters: an engine in memory and a type of addresses, at which the witnesses of the
-- theorems are stated. They stand for no code of the program.
pub mod Memory
pub mod Stored
pub mod Documents
