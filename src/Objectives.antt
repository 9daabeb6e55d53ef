-- ===== src/Objectives.antt =====
-- polyserve/calibrate/objectives.py: which measured configuration wins.
pub mod Score
pub mod Rank
pub mod Order
pub mod Members
pub mod Pick
pub mod Feasible
pub mod Ties
pub mod Enough
mod Tests
