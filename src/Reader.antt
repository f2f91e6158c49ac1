-- ===== src/Reader.antt =====
-- pihub/unifying_reader.py: the USB receiver's key events as edges, and its loss and return.
pub mod Filter
pub mod Loop
pub mod Edges
pub mod Steps
pub mod Schedule
