-- ===== src/Naming.antt =====
-- src/geoml/naming_choosing/Shape.{h,cpp}: shapes with their topology, modelling history and tags.
-- A `Shape` is a shared pointer to its `Data`: here an address in a heap, so that two shapes can share
-- their data. OpenCASCADE's shapes are the type `Topo`, with the operations of `Occt`.
pub mod Visitor
pub mod Reach
pub mod Queries
pub mod Subshapes
pub mod History
pub mod Descent
pub mod Tags
pub mod Tagging
pub mod Operation
pub mod Lifetime
pub mod Marking
use Prim.Native.String.{String}
use text.Mathlib.Text.{◌==◌ as str_eq}
use geoml.Common.{
  ℕ, zero, suc, ◌+◌, ◌≡◌, Bool, true, false, not, ◌&&◌, ◌||◌, List, [], ◌∷◌, ◌++◌, ◌==◌, ltb,
  if◌then◌else◌, length, get_elem?, Option, none, some,
}
use geoml.Common.Result.{Result, ok, err}

-- `TopAbs_ShapeEnum`
pub data ShapeEnum : Type 0 where
  compound compsolid solid shell face wire edge vertex shape : ShapeEnum

unfoldable pub shape_enum_eq : ShapeEnum → ShapeEnum → Bool
shape_enum_eq a b = rank a == rank b
  where
    rank : ShapeEnum → ℕ
    rank compound = 0
    rank compsolid = 1
    rank solid = 2
    rank shell = 3
    rank face = 4
    rank wire = 5
    rank edge = 6
    rank vertex = 7
    rank shape = 8

-- What the code asks of OpenCASCADE's `TopoDS_Shape`. `height` bounds the nesting of a shape, which
-- OpenCASCADE keeps finite; it is only the fuel of the constructor below.
pub record Occt (Topo : Type 0) : Type 0 where
  pub null : Topo
  pub is_null : Topo → Bool
  pub shape_type : Topo → ShapeEnum
  pub is_same : Topo → Topo → Bool
  pub iterate : Topo → List Topo
  pub make_compound : List Topo → Topo
  pub height : Topo → ℕ

-- A tag track; its criterion is a closure, here a name that `Data` can hold.
pub record TagTrack (Criterion : Type 0) : Type 0 where
  pub tag : String
  pub criterion : Criterion
  pub remaining_steps : ℕ

-- `Shape::Data`, with shapes as addresses.
pub record ShapeData (Topo Criterion : Type 0) : Type 0 where
  pub shape : Topo
  pub children : List ℕ
  pub origins : List ℕ
  pub persistent_meta_tags : List String
  pub tag_tracks : List (TagTrack Criterion)

pub record Heap (Topo Criterion : Type 0) : Type 0 where
  pub cell : ℕ → ShapeData Topo Criterion
  pub next : ℕ

-- `std::function<bool(Shape const&)>`, which may look at all that a shape leads to.
abbrev pub Predicate : Type 0 → Type 0 → Type 0
Predicate Topo Criterion = Heap Topo Criterion → ℕ → Bool

pub data ShapeError : Type 0 where
  not_a_compound : ShapeError
  not_exactly_one_child : ℕ → ShapeError

module _ {Topo Criterion : Type 0} where
  -- `*s.m_data = d`
  unfoldable pub write : Heap Topo Criterion → ℕ → ShapeData Topo Criterion → Heap Topo Criterion
  write h s d = record h { cell = λ a. if a == s then d else h.cell a }

  -- `std::make_shared<Data>`
  unfoldable pub allocate : Heap Topo Criterion → ShapeData Topo Criterion → ℕ × Heap Topo Criterion
  unfolding write
  allocate h d = (h.next, record (write h h.next d) { next = h.next + 1 })

module _ {Topo Criterion : Type 0} (occt : Occt Topo) where
  unfoldable pub data_of : Topo → List ℕ → ShapeData Topo Criterion
  data_of t cs = record {
    shape = t;
    children = cs;
    origins = [];
    persistent_meta_tags = [];
    tag_tracks = [];
  }

  -- `children.push_back(Shape(it.Value()))` for each value of the iterator.
  unfoldable pub build_all :
      (Topo → Heap Topo Criterion → ℕ × Heap Topo Criterion)
      → List Topo
      → Heap Topo Criterion
      → List ℕ × Heap Topo Criterion
  build_all build [] h = ([], h)
  build_all build (t ∷ ts) h =
      let (s, h') = build t h in let (ss, h'') = build_all build ts h' in (s ∷ ss, h'')

  -- The constructor of `Data`, with fuel for the nesting of the shape.
  unfoldable pub build : ℕ → Topo → Heap Topo Criterion → ℕ × Heap Topo Criterion
  unfolding build_all allocate data_of
  build zero t h = allocate h (data_of t [])
  build (suc k) t h =
      let (cs, h') = build_all (λ u g. build k u g) (occt.iterate t) h in allocate h' (data_of t cs)

  -- `Shape(TopoDS_Shape)`
  unfoldable pub new_shape : Topo → Heap Topo Criterion → ℕ × Heap Topo Criterion
  unfolding build
  new_shape t h = build (occt.height t) t h

  -- `Shape()`
  unfoldable pub new_null_shape : Heap Topo Criterion → ℕ × Heap Topo Criterion
  unfolding allocate data_of
  new_null_shape h = allocate h (data_of occt.null [])
