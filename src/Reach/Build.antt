-- ===== src/Reach/Build.antt =====
-- Matrix/reach.cpp: the construction of the index, pass by pass.
pub mod Degrees
pub mod Counts
pub mod Roots
pub mod Sums
pub mod Positions
pub mod Reversed
pub mod Edge
pub mod Kahn
pub mod Rows
pub mod Front
pub mod Unseen
pub mod Levels
pub mod Topology
pub mod Start
pub mod Passes
pub mod Heights
pub mod Layers
pub mod Number
pub mod Sweep
pub mod Index
pub mod Entries
pub mod Construct
