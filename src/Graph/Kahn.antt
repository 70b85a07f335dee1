-- ===== src/Graph/Kahn.antt =====
-- Proofs about Kahn's algorithm as graph.go runs it, below this file.
pub mod Frontier
pub mod Missing
pub mod Reached
pub mod Loop
