-- ===== src/Reach/Build/Sweep.antt =====
-- Matrix/reach.cpp: a pass over the vertices of one layer, by `pre_process` or `pre_process_cross`.
pub mod Touch
pub mod Visit
pub mod Balance
pub mod Pass
pub mod Marks
pub mod Step
pub mod Reads
pub mod Rounds
pub mod Whole
pub mod Laid
pub mod Placed
pub mod Kept
pub mod Climbs
pub mod Coming
pub mod Layer
pub mod Cross
pub mod First
pub mod Layers
pub mod Labelled
pub mod Constructs
