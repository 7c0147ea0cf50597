-- ===== src/Lib.antt =====
-- A model of the parts of GeoML that decide something themselves, not by a call of OpenCASCADE, and
-- the theorems about them. Paths are from the root of the repository.
--
-- Network: src/geometry/curve-networks. Network.antt and its modules Bubble to Renamed are
--   CurveNetworkSorter.{h,cpp}: a `Sorter` has the members of the class; `perform` is Perform,
--   `get_start_curve_indices`, `swap_profiles`, `reverse_profile` and so on are the members of those
--   names, `sort_guides` and `sort_profiles` the bubble sorts, and `arrange` all that Perform does
--   after it has its start curves. Curves and doubles are parameters. Network/Gordon and
--   Built are GordonSurfaceBuilder.cpp: the checks of a network.
--   Network/Interpolate is InterpolateCurveNetwork.cpp: the intersections of the curves, which an
--   algorithm of OpenCASCADE finds and which are a parameter here, and the network that is made of them.
-- Naming: src/geoml/naming_choosing/Shape.{h,cpp}, src/topology/Operation.h and
--   src/geoml/predicates/predicate_functions.cpp. A `Shape` is a shared pointer, so it is an address
--   in a `Heap` of `ShapeData`, and every operation takes the heap and returns the new one. The
--   visitors of the topology and of the history are functions on fuel; the depth of the shape or of
--   the history is enough, and the theorems name the depth that they mean.
-- Geometry: src/geometry/Transformation.{h,cpp}, src/geometry/Point.{h,cpp}, and PolarDecomposition and
--   SVD of src/math/MathFunctions.cpp, which Decompose calls. Arithmetic is that of a commutative ring
--   (Common/Ring), so rounding is left out. `gp_GTrsf`, `gp_Mat`, <cmath> and `SVD_Decompose` are
--   parameters. Geometry/RectGrid is src/geometry/RectGridSurface.h: a pointer to a face is an index
--   of the array of faces, a null pointer is none, and the walk that places the faces runs on as much
--   fuel as there are faces, since it comes to no face twice.
-- Splines: src/geometry/BSplineAlgorithms.cpp, its work on degrees, knots, multiplicities and
--   parameters: knot vectors from parameters (Knots), parameters from points (Parameters), scales and
--   bounds of points (Measure), concatenation (Concat), and curves made compatible (Compatible).
-- CommonFunctions: src/common/CommonFunctions.{h,cpp}: edges that are connected (Connected) and the
--   wires they make (Wires), and values and sequences of numbers (Values, Linspace).
-- NamedShapes: src/topology/CNamedShape.{h,cpp} with GetFacesByName and GroupFaces of
--   src/common/CommonFunctions.cpp. A `CNamedShape` copies the traits of its faces.
-- Numerics: src/math/MathFunctions.cpp: binom, FindPosition and Interpolate, the CST curve with its
--   Bernstein polynomials (Cst), and cheb_to_monomial (Chebyshev). `binom` calls itself once
--   at most, so two steps of fuel are enough; the search runs on as much fuel as the table has values,
--   since its interval shrinks in every round. An `int` that overflows is none.
-- Utilities: src/geoml/data_structures/Array2d.h, src/common/sorting.h (FollowSort) and
--   src/common/COptionList.h with the options and the exporter of src/exports/CADExporter.{h,cpp}
--   (Options). The loop of `follow_sort` runs on as much fuel as there are elements: a round that swaps
--   lengthens the chain.
-- Logging: src/logging. The loggers behind shared pointers are objects of a store.
-- Formats: src/exports/{ExporterFactory,CGlobalExporterConfigs}.cpp, src/imports/ImporterFactory.cpp
--   and the string functions that they call. A registered file type leads to a builder and, for
--   exporters, to an entry of the configurations.
-- Common: the native numbers, integers over them, lists, the order and the ring that stand for
--   doubles, reorderings of indices, `std::map` as a list of entries with ascending keys, and results
--   of calls that may throw.
-- Examples: each of the results below at a concrete input, and runs.
--
-- How the parts interact: an Operation makes a Shape with its inputs as origins and their tag tracks;
-- the factories write to the configurations, which hold option lists; the exporters' options are
-- option lists. The interpolation of a curve network hands its intersection parameters to the sorter,
-- limits its numbers of control points by the Clamp of the common functions, and gives its curves to
-- the checks of the Gordon surface; breaks are put into a sequence with the helpers of the splines. The grids, the
-- transformations, the named shapes and the loggers stand alone.
--
-- Not modelled: the numerics of B-splines (approximation, skinning, intersections and projections:
-- iterative floating point on OpenCASCADE's classes), boolean operations and most topology tools (calls
-- of OpenCASCADE), readers and writers (I/O), src/contrib (another project's library), and the
-- interface that passes calls on.
pub mod Common
pub mod CommonFunctions
pub mod Examples
pub mod Formats
pub mod Geometry
pub mod Logging
pub mod NamedShapes
pub mod Naming
pub mod Network
pub mod Numerics
pub mod Splines
pub mod Utilities
