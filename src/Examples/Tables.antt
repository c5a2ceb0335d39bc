-- ===== src/Examples/Tables.antt =====
-- Concrete mime types, atoms and properties.
use xwlrvnc.Base.{
  ℕ, ◌≤◌, ◌≡◌, refl, Bool, true, false, ◌&&◌, some, List, [], ◌∷◌, arith, if◌then◌else◌, is_some,
  ltb, bytes_eq, tally,
}
use xwlrvnc.X11.Targets.Advertised.{advertised_lem}
use xwlrvnc.X11.Targets.{Conversion, advertised, plain, resolve, string_name}
use xwlrvnc.X11.Atom.Names.{IsNamed, IsTable, default-IsTable, intern_lem}
use xwlrvnc.X11.Atom.{Atoms, default, intern, name}
use xwlrvnc.X11.Atom.Predefined.{predefined_atoms}
use xwlrvnc.X11.Property.{Properties, Property}

abbrev is_ascii : List ℕ → Bool
is_ascii [] = true
is_ascii (b ∷ bytes) = ltb b 128 && is_ascii bytes

abbrev offered : List (List ℕ)
offered = plain ∷ (97 ∷ 47 ∷ 98 ∷ []) ∷ plain ∷ []

advertised_lem_example :
    tally (bytes_eq plain) (advertised is_ascii offered)
    ≡ (if is_some (resolve is_ascii plain offered) then 1 else 0)
advertised_lem_example = advertised_lem is_ascii offered plain (refl, (refl, (refl, tt)))

abbrev as_string : Conversion
as_string = record { mime = plain; type_ = some string_name; latin1 = true }

abbrev atoms : Atoms
atoms = default predefined_atoms

-- `XYZ`.
abbrev xyz : List ℕ
xyz = 88 ∷ 89 ∷ 90 ∷ []

intern_lem_example :
    let (u, id) = intern xyz false atoms in
    IsTable u
    × (1 ≤ id)
    × (name id u ≡ some xyz)
    × ((intern xyz true u).1 ≡ id)
    × IsNamed u atoms.by_name
unfolding default
intern_lem_example = intern_lem xyz true atoms (omega arith) (default-IsTable predefined_atoms)

abbrev text : Property
text = record { type_ = 31; format = 8; bytes = xyz }

abbrev properties : Properties
properties = ((7, 1), text) ∷ ((7, 2), text) ∷ []
