-- ===== src/Examples/Formats.antt =====
-- The file types "stp;step" and "Step".
use geoml.Common.{
  ℕ, ◌≡◌, ◌≢◌, ◌⊎◌, refl, ap, arith, Bool, true, false, some, [], ◌∷◌, if◌then◌else◌,
}
use geoml.Common.Result.{ok}
use geoml.Formats.{
  Name, to_lower, split_string, ExporterFactory, register_exporter, create_exporter,
  exporter_supported,
}
use geoml.Formats.Factories.{is_among, create_exporter-register_exporter}

abbrev stp : Name
stp = 115 ∷ 116 ∷ 112 ∷ []

-- "STP"
abbrev upper : Name
upper = 83 ∷ 84 ∷ 80 ∷ []

-- "stp;igs"
abbrev types : Name
types = 115 ∷ 116 ∷ 112 ∷ 59 ∷ 105 ∷ 103 ∷ 115 ∷ []

abbrev exporters : ExporterFactory Bool
exporters = record {
  exporter_builders = [];
  global_configs = record { configs = []; index_map = [] };
}

runs : split_string 59 types ≡ stp ∷ (105 ∷ 103 ∷ 115 ∷ []) ∷ []
unfolding split_string
runs = refl

create_exporter-register_exporter_example :
    let g = register_exporter (some (4, some types)) false exporters in
    ((is_among upper (split_string 59 types) ≡ true)
      × (exporter_supported upper g ≡ true)
      × (create_exporter (λ o. o) upper true g ≡ ok (4, if true then false else true)))
    ⊎ ((is_among upper (split_string 59 types) ≡ false)
        × (exporter_supported upper g ≡ exporter_supported upper exporters))
create_exporter-register_exporter_example =
    create_exporter-register_exporter (λ o. o) 4 types upper false true exporters

not_lower : to_lower upper ≢ upper
unfolding to_lower
not_lower e = absurd (omega (arith, ap first_byte e))
  where
    first_byte : Name → ℕ
    first_byte [] = 0
    first_byte (c ∷ cs) = c
