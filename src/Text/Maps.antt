-- ===== src/Text/Maps.antt =====
-- A hash map with text keys, as a function from its keys.
use dbotter.Prelude.{Option, none, some, if◌then◌else◌}
use dbotter.Text.{Text, text_eq}

abbrev pub Map {ℓ} : Type ℓ → Type ℓ
Map V = Text → Option V

module _ {ℓ} {V : Type ℓ} where
  abbrev pub put : Map V → Text → V → Map V
  put m k v j = if text_eq k j then some v else m j

  abbrev pub erase : Map V → Text → Map V
  erase m k j = if text_eq k j then none else m j
