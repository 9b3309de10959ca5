-- ===== src/Reach.antt =====
-- Matrix/reach.cpp: the reachability index over a directed acyclic graph.
pub mod Graph
pub mod Traverse
pub mod Labels
pub mod Query
pub mod Build
pub mod Answers
mod Runs
