-- ===== src/Examples.antt =====
-- Concrete inputs: the theorems applied to them, and runs of the models.
pub mod Mod3
pub mod Network
pub mod Naming
pub mod Utilities
pub mod General
pub mod Geometry
pub mod Logging
pub mod Formats
pub mod Numerics
pub mod RectGrid
pub mod Splines
pub mod CommonFunctions
pub mod NamedShapes
pub mod Interpolate
