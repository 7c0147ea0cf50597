-- ===== src/Network.antt =====
-- src/geometry/curve-networks/CurveNetworkSorter.{h,cpp}: the state of the sorter and its steps.
-- Curves and matrices belong to OpenCASCADE: a curve is a parameter, a `math_Matrix` is its entries.
pub mod Gordon
pub mod Built
pub mod Interpolate
pub mod Bubble
pub mod Scan
pub mod Sorted
pub mod Arranged
pub mod First
pub mod Start
pub mod Perform
pub mod Oriented
pub mod Renamed
use geoml.Common.{
  ℕ, zero, suc, ◌+◌, ◌-◌, Bool, true, false, not, Option, none, some, ◌==◌, if◌then◌else◌,
}
use geoml.Common.Real.{Real}
use geoml.Common.Result.{Result, ok, err, ◌>>=◌}
use geoml.Common.Reorder.{swap}
use Bubble.{bubble}
use Scan.{max_row_index, max_col_index, min_row_index, min_col_index}

-- The strings of `m_profIdx` and `m_guidIdx`: a printed index, and `"-" + s`.
pub data IndexString : Type 0 where
  printed : ℕ → IndexString
  minus : IndexString → IndexString

-- What the sorter asks of a curve that is not null.
pub record CurveOps {ℓ κ} (W : Type ℓ) (C : Type κ) : Type (ℓ ⊔ κ) where
  pub first_parameter : C → W
  pub last_parameter : C → W
  pub reverse : C → C

pub record Sorter {ℓ κ} (W : Type ℓ) (C : Type κ) : Type (ℓ ⊔ κ) where
  pub n_profiles : ℕ
  pub n_guides : ℕ
  pub profiles : ℕ → Option C
  pub guides : ℕ → Option C
  pub parms_inters_profiles : ℕ → ℕ → W
  pub parms_inters_guides : ℕ → ℕ → W
  pub prof_idx : ℕ → IndexString
  pub guid_idx : ℕ → IndexString
  pub has_performed : Bool

-- A `math_Matrix` with its dimensions.
pub record Matrix {ℓ} (W : Type ℓ) : Type ℓ where
  pub row_number : ℕ
  pub col_number : ℕ
  pub entry : ℕ → ℕ → W

pub data SorterError : Type 0 where
  invalid_row_size_profiles invalid_row_size_guides : SorterError
  invalid_col_size_profiles invalid_col_size_guides : SorterError
  cannot_find_starting_curves : SorterError

module _ {ℓ κ} {W : Type ℓ} {C : Type κ} where
  -- The constructor.
  unfoldable pub new_sorter :
      (n_profiles n_guides : ℕ)
      → (ℕ → Option C)
      → (ℕ → Option C)
      → Matrix W
      → Matrix W
      → Result SorterError (Sorter W C)
  new_sorter n_profiles n_guides profiles guides inters_profiles inters_guides =
      if not (n_profiles == inters_profiles.row_number)
      then err invalid_row_size_profiles
      else if not (n_profiles == inters_guides.row_number)
      then err invalid_row_size_guides
      else if not (n_guides == inters_profiles.col_number)
      then err invalid_col_size_profiles
      else if not (n_guides == inters_guides.col_number)
      then err invalid_col_size_guides
      else ok (record {
        n_profiles = n_profiles;
        n_guides = n_guides;
        profiles = profiles;
        guides = guides;
        parms_inters_profiles = inters_profiles.entry;
        parms_inters_guides = inters_guides.entry;
        prof_idx = printed;
        guid_idx = printed;
        has_performed = false;
      })

  unfoldable pub swap_profiles : Sorter W C → ℕ → ℕ → Sorter W C
  unfolding swap
  swap_profiles s idx1 idx2 = if idx1 == idx2 then s else record s {
    profiles = swap s.profiles idx1 idx2;
    prof_idx = swap s.prof_idx idx1 idx2;
    parms_inters_guides = swap s.parms_inters_guides idx1 idx2;
    parms_inters_profiles = swap s.parms_inters_profiles idx1 idx2;
  }

  unfoldable pub swap_guides : Sorter W C → ℕ → ℕ → Sorter W C
  unfolding swap
  swap_guides s idx1 idx2 = if idx1 == idx2 then s else record s {
    guides = swap s.guides idx1 idx2;
    guid_idx = swap s.guid_idx idx1 idx2;
    parms_inters_guides = λ i. swap (s.parms_inters_guides i) idx1 idx2;
    parms_inters_profiles = λ i. swap (s.parms_inters_profiles i) idx1 idx2;
  }

-- What `GetStartCurveIndices` writes to its three references.
pub record StartCurves : Type 0 where
  pub prof_start : ℕ
  pub guid_start : ℕ
  pub guide_must_be_reversed : Bool

unfoldable pub or_throw : Option StartCurves → Result SorterError StartCurves
or_throw (some c) = ok c
or_throw none = err cannot_find_starting_curves

unfoldable pub or_else : Option StartCurves → Option StartCurves → Option StartCurves
or_else (some c) d = some c
or_else none d = d

module _ {ℓ κ} {W : Type ℓ} {C : Type κ} (o : Real W) where
  -- The first loop, from row `irow` with `n` rows to go.
  unfoldable pub find_start : Sorter W C → (n irow : ℕ) → Option StartCurves
  find_start s zero irow = none
  find_start s (suc n) irow =
      let jmin = min_row_index o s.n_guides s.parms_inters_profiles irow in
      let imin = min_col_index o s.n_profiles s.parms_inters_guides jmin in
      let rest = find_start s n (irow + 1) in
      if imin == irow
      then some (record { prof_start = imin; guid_start = jmin; guide_must_be_reversed = false })
      else rest

  -- The second loop.
  unfoldable pub find_loop_start : Sorter W C → (n irow : ℕ) → Option StartCurves
  find_loop_start s zero irow = none
  find_loop_start s (suc n) irow =
      let jmin = min_row_index o s.n_guides s.parms_inters_profiles irow in
      let imax = max_col_index o s.n_profiles s.parms_inters_guides jmin in
      let rest = find_loop_start s n (irow + 1) in
      if imax == irow
      then some (record { prof_start = imax; guid_start = jmin; guide_must_be_reversed = true })
      else rest

  unfoldable pub get_start_curve_indices : Sorter W C → Result SorterError StartCurves
  unfolding find_start find_loop_start or_throw or_else
  get_start_curve_indices s =
      or_throw (or_else (find_start s s.n_profiles 0) (find_loop_start s s.n_profiles 0))

-- The entry `p` of a reversed curve.
abbrev pub reversed_parm {ℓ} : {W : Type ℓ} → Real W → W → W → W → W
reversed_parm o first last p = o.add (o.add (o.neg p) first) last

-- `v[k] = f(v[k])`
abbrev pub modify_at {ℓ} : {A : Type ℓ} → ℕ → (A → A) → (ℕ → A) → ℕ → A
modify_at k f v i = if i == k then f (v i) else v i

module _ {ℓ κ} {W : Type ℓ} {C : Type κ} (o : Real W) (curve : CurveOps W C) where
  unfoldable pub bound_or : (C → W) → Option C → W → W
  bound_or bound (some c) otherwise = bound c
  bound_or bound none otherwise = otherwise

  unfoldable pub reverse_curve : Option C → Option C
  reverse_curve (some c) = some (curve.reverse c)
  reverse_curve none = none

  -- `firstParm` and `lastParm`: of the curve, or of the row where the curve is null.
  unfoldable pub profile_last : Sorter W C → ℕ → W
  unfolding bound_or
  profile_last s k =
      let m = s.parms_inters_profiles in
      bound_or curve.last_parameter (s.profiles k) (m k (max_row_index o s.n_guides m k))

  unfoldable pub profile_first : Sorter W C → ℕ → W
  unfolding bound_or
  profile_first s k =
      let m = s.parms_inters_profiles in
      bound_or curve.first_parameter (s.profiles k) (m k (min_row_index o s.n_guides m k))

  unfoldable pub guide_last : Sorter W C → ℕ → W
  unfolding bound_or
  guide_last s k =
      let m = s.parms_inters_guides in
      bound_or curve.last_parameter (s.guides k) (m (max_col_index o s.n_profiles m k) k)

  unfoldable pub guide_first : Sorter W C → ℕ → W
  unfolding bound_or
  guide_first s k =
      let m = s.parms_inters_guides in
      bound_or curve.first_parameter (s.guides k) (m (min_col_index o s.n_profiles m k) k)

  unfoldable pub reverse_profile : Sorter W C → ℕ → Sorter W C
  unfolding reverse_curve
  reverse_profile s k =
      let turn =
        λ (row : ℕ → W) (j : ℕ). reversed_parm o (profile_first s k) (profile_last s k) (row j) in
      record s {
        parms_inters_profiles = modify_at k turn s.parms_inters_profiles;
        profiles = modify_at k reverse_curve s.profiles;
        prof_idx = modify_at k minus s.prof_idx;
      }

  unfoldable pub reverse_guide : Sorter W C → ℕ → Sorter W C
  unfolding reverse_curve
  reverse_guide s k =
      let turn = reversed_parm o (guide_first s k) (guide_last s k) in
      record s {
        parms_inters_guides = λ i. modify_at k turn (s.parms_inters_guides i);
        guides = modify_at k reverse_curve s.guides;
        guid_idx = modify_at k minus s.guid_idx;
      }

  -- The bubble sort of the guides by the parameters of the first profile.
  unfoldable pub sort_guides : Sorter W C → Sorter W C
  unfolding bubble
  sort_guides s = bubble o.gt (λ t j. t.parms_inters_profiles 0 j) swap_guides s.n_guides s

  -- The bubble sort of the profiles by the parameters of the first guide.
  unfoldable pub sort_profiles : Sorter W C → Sorter W C
  unfolding bubble
  sort_profiles s = bubble o.gt (λ t i. t.parms_inters_guides i 0) swap_profiles s.n_profiles s

  -- The bodies of the last two loops; `last` is `nGuid - 1` and `nProf - 1`.
  unfoldable pub orient_profile : ℕ → Sorter W C → ℕ → Sorter W C
  orient_profile last s k =
      if o.gt (s.parms_inters_profiles k 0) (s.parms_inters_profiles k last)
      then reverse_profile s k
      else s

  unfoldable pub orient_guide : ℕ → Sorter W C → ℕ → Sorter W C
  orient_guide last s k =
      if o.gt (s.parms_inters_guides 0 k) (s.parms_inters_guides last k)
      then reverse_guide s k
      else s

  -- The loops, from `k` with `n` curves to go.
  unfoldable pub orient_profiles : (last n k : ℕ) → Sorter W C → Sorter W C
  orient_profiles last zero k s = s
  orient_profiles last (suc n) k s = orient_profiles last n (k + 1) (orient_profile last s k)

  unfoldable pub orient_guides : (last n k : ℕ) → Sorter W C → Sorter W C
  orient_guides last zero k s = s
  orient_guides last (suc n) k s = orient_guides last n (k + 1) (orient_guide last s k)

  -- The start curves first.
  unfoldable pub place_start : Sorter W C → StartCurves → Sorter W C
  place_start s start =
      let t = swap_guides (swap_profiles s 0 start.prof_start) 0 start.guid_start in
      if start.guide_must_be_reversed then reverse_guide t 0 else t

  -- `Perform` after the start curves are known.
  unfoldable pub arrange : Sorter W C → StartCurves → Sorter W C
  arrange s start =
      let t = sort_profiles (sort_guides (place_start s start)) in
      let u = orient_profiles (s.n_guides - 1) (s.n_profiles - 1) 1 t in
      record (orient_guides (s.n_profiles - 1) (s.n_guides - 1) 1 u) { has_performed = true }

  unfoldable pub perform : Sorter W C → Result SorterError (Sorter W C)
  perform s =
      if s.has_performed
      then ok s
      else (get_start_curve_indices o s >>= λ start. ok (arrange s start))
