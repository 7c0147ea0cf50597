-- ===== src/Geometry.antt =====
-- src/geometry: the affine maps that the library builds its bodies with.
pub mod Transformation
pub mod Point
pub mod Polar
pub mod RectGrid
