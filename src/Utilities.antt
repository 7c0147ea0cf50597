-- ===== src/Utilities.antt =====
-- The containers and helpers under src/common and src/geoml/data_structures.
pub mod Array2d
pub mod FollowSort
pub mod Options
