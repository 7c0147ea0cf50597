-- ===== src/Utilities/Options/Laws.antt =====
-- What the operations of an option list do to the options.
use geoml.Common.{
  ℕ, ◌≡◌, ◌≢◌, refl, sym, ap, ◌∙◌, subst, Bool, true, false, Option, none, some, [], ◌∷◌, ◌==◌,
  if◌then◌else◌, Bool-cases, arith, ◌⊎◌, inl, inr, ℕ_discrete,
}
use geoml.Common.Map.{
  Map, lex, bytes, bytes-IsKeyOrder, same_key, lookup, assign, lookup-assign, IsSorted,
  IsSorted-tail, lookup_below,
}
use geoml.Common.Result.{generic_error, ok, err, ok-injective, ok-ne-err}
use geoml.Utilities.Options.{
  Name, Any, OptionList, type_id, get, set_option, add_option, merge_all, merged, exporter_options,
  set_apply_symmetries, set_include_farfield, apply_symmetries, include_farfield,
}

same_key_self : (name : Name) → same_key bytes name name ≡ true
same_key_self name = ground (arith, bytes-IsKeyOrder.irrefl name)

same_key_ne : (a b : Name) → a ≢ b → same_key bytes a b ≡ false
same_key_ne a b ne = ground (arith, bytes-IsKeyOrder.total a b)

bytes_asymm : (a b : Name) → bytes.lt a b ≡ true → bytes.lt b a ≡ false
bytes_asymm a b h = ground (arith, bytes-IsKeyOrder.trans a b a, bytes-IsKeyOrder.irrefl a)

same_number : (n : ℕ) → (n == n) ≡ true
same_number n = ground arith

Option-cases {ℓ} : {A : Type ℓ} (o : Option A) → (o ≡ none) ⊎ ((a : A) × (o ≡ some a))
Option-cases none = inl refl
Option-cases (some a) = inr (a, refl)

module _ {ℓ} {W : Type ℓ} where
  abbrev pub found : Name → OptionList W → Option (Any W)
  found name l = lookup bytes name l.options

  lookup-assign_self :
      (name : Name) (value : Any W) (m : Map Name (Any W))
      → lookup bytes name (assign bytes name value m) ≡ some value
  lookup-assign_self name value m =
      lookup-assign bytes bytes-IsKeyOrder name name value m ∙ (rw (same_key_self name) refl)

  lookup-assign_ne :
      (other name : Name) (value : Any W) (m : Map Name (Any W))
      → other ≢ name
      → lookup bytes other (assign bytes name value m) ≡ lookup bytes other m
  lookup-assign_ne other name value m ne =
      lookup-assign bytes bytes-IsKeyOrder name other value m
      ∙ (rw (same_key_ne other name ne) refl)

  -- Where the list has an option of that name with the type of the value, `Set` gives it the value,
  -- which `Get` then reads, and every other option stays as it is. Where the name is not there, or
  -- its option has another type, `Set` throws, as `Get` does with the type of the value.
  pub get-set_option :
      (name : Name) (value : Any W) (l : OptionList W)
      → ((old : Any W) × (found name l ≡ some old)
          × (type_id old ≡ type_id value)
          × (m : OptionList W) × (set_option name value l ≡ ok m)
          × (get (type_id value) name m ≡ ok value)
          × ((other : Name) → other ≢ name → found other m ≡ found other l))
        ⊎ (((found name l ≡ none)
              ⊎ ((old : Any W) × (found name l ≡ some old) × (type_id old ≢ type_id value)))
            × (set_option name value l ≡ err generic_error)
            × (get (type_id value) name l ≡ err generic_error))
  unfolding get set_option
  get-set_option name value l = elim (Option-cases (found name l)) [
    | inl e ↦ inr (inl e, rw e refl, rw e refl)
    | inr (v, e) ↦ elim (ℕ_discrete (type_id v) (type_id value)) [
      | no ne ↦
          let f : (type_id v == type_id value) ≡ false = ground arith in
          inr (inr (v, e, ne), rw (e, f) refl, rw (e, f) refl)
      | yes same ↦
          let f : (type_id v == type_id value) ≡ true = ground arith in
          inl (
            v,
            e,
            same,
            record l { options = assign bytes name value l.options },
            rw (e, f) refl,
            rw (lookup-assign_self name value l.options, same_number (type_id value)) refl,
            λ other ne. lookup-assign_ne other name value l.options ne,
          )
    ]
  ]

  -- The other list's option if it has one of that name, else this one's.
  abbrev pub either : Option (Any W) → Option (Any W) → Option (Any W)
  either none b = b
  either (some a) b = some a

  merge_all-found :
      (es : Map Name (Any W)) (l : OptionList W) (name : Name)
      → IsSorted bytes es
      → found name (merge_all es l) ≡ either (lookup bytes name es) (found name l)
  unfolding merge_all add_option lookup
  merge_all-found [] l name h = refl
  merge_all-found ((n, v) ∷ es) l name h =
      merge_all-found es (add_option n v l) name (IsSorted-tail bytes n v es h)
      ∙ ap (either (lookup bytes name es)) (lookup-assign bytes bytes-IsKeyOrder n name v l.options)
      ∙ step
    where
      step :
          either (lookup bytes name es) (if same_key bytes name n then some v else found name l)
          ≡ either (lookup bytes name ((n, v) ∷ es)) (found name l)
      step = elim (Bool-cases (bytes.lt n name)) [
        | inl e ↦ rw (e, bytes_asymm n name e) refl
        | inr e ↦
            rw (lookup_below bytes bytes-IsKeyOrder name n v es h e)
              (elim (Bool-cases (bytes.lt name n)) [
                | inl f ↦ rw (e, f) refl
                | inr f ↦ rw (e, f) refl
              ])
      ]

  -- `Merged` has every option of the other list, with its value there, and the rest as they were,
  -- where the other map's keys ascend, as those of a `std::map` do.
  pub merged-found :
      (l other : OptionList W) (name : Name)
      → IsSorted bytes other.options
      → found name (merged l other) ≡ either (found name other) (found name l)
  unfolding merged
  merged-found l other name h = merge_all-found other.options l name h

  -- The option lists that `Set` calls lead to from a new `ExporterOptions`.
  pub data Reach : OptionList W → Type ℓ where
    start : Reach exporter_options
    next :
        (name : Name) (value : Any W) {l m : OptionList W}
        → Reach l
        → set_option name value l ≡ ok m
        → Reach m

  abbrev Lacks : OptionList W → Type ℓ
  Lacks l = (found apply_symmetries l ≡ none) × (found include_farfield l ≡ none)

  set_option_keeps :
      (name other : Name) (value : Any W) (l m : OptionList W)
      → set_option name value l ≡ ok m
      → found other l ≡ none
      → found other m ≡ none
  unfolding set_option
  set_option_keeps name other value l m e h = elim (Option-cases (found name l)) [
    | inl f ↦ absurd (ok-ne-err (sym (rw f at e)))
    | inr (v, f) ↦ elim (Bool-cases (type_id v == type_id value)) [
      | inr g ↦ absurd (ok-ne-err (sym (rw (f, g) at e)))
      | inl g ↦
          subst (λ (n : OptionList W). found other n ≡ none) (ok-injective (rw (f, g) at e))
            (elim (Bool-cases (same_key bytes other name)) [
              | inl same ↦
                  absurd (
                    none-ne-some v (sym h ∙ ap (λ (x : Name). found x l) (key other name same) ∙ f))
              | inr differs ↦
                  lookup-assign bytes bytes-IsKeyOrder name other value l.options
                  ∙ (rw (differs, h) refl)
            ])
    ]
  ]
    where
      none-ne-some : (v : Any W) → ◌≡◌ {A = Option (Any W)} none (some v) → ⊥
      none-ne-some v e = cc

      key : (a b : Name) → same_key bytes a b ≡ true → a ≡ b
      key a b h = ground (arith, bytes-IsKeyOrder.total a b)

  reach-Lacks : {l : OptionList W} → Reach l → Lacks l
  unfolding exporter_options lookup assign lex
  reach-Lacks start = (refl, refl)
  reach-Lacks (next name value {l} {m} r e) =
      let (a, b) = reach-Lacks r in
      (
        set_option_keeps name apply_symmetries value l m e a,
        set_option_keeps name include_farfield value l m e b,
      )

  -- `SetApplySymmetries` and `SetIncludeFarfield` throw on every `ExporterOptions`, whatever `Set`
  -- calls came before.
  pub set_apply_symmetries_throws :
      {l : OptionList W} (apply : Bool)
      → Reach l
      → (set_apply_symmetries apply l ≡ err generic_error)
        × (set_include_farfield apply l ≡ err generic_error)
  unfolding set_apply_symmetries set_include_farfield
  set_apply_symmetries_throws apply r = let (a, b) = reach-Lacks r in (rw a refl, rw b refl)
