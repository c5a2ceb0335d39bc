-- ===== src/X11/Property/Listing.antt =====
-- What a table of properties answers after a change, and what it lists.
use xwlrvnc.Base.{
  ℕ, ◌+◌, ◌≡◌, ◌∙◌, ◌&&◌, none, some, [], ◌∷◌, ◌++◌, map, arith, ==_refl, if◌then◌else◌, is_some,
  ◌==◌, count, retain,
}
use xwlrvnc.X11.Property.{Properties, Property, get, is_other, list, remove, set_property}

pub list-retain :
    (window property w p : ℕ) (map : Properties)
    → count p (list w (retain (is_other window property) map))
      ≡ (if w == window && p == property then 0 else count p (list w map))
unfolding list
list-retain window property w p [] = ground arith
list-retain window property w p (((v, q), value) ∷ map) =
    ground (arith, list-retain window property w p map)

list-append :
    (w p window property : ℕ) (value : Property) (map : Properties)
    → count p (list w (map ++ (((window, property), value) ∷ [])))
      ≡ count p (list w map) + (if w == window && p == property then 1 else 0)
unfolding list
list-append w p window property value [] = ground arith
list-append w p window property value (((v, q), x) ∷ map) =
    ground (arith, list-append w p window property value map)

find-retain :
    (w p window property : ℕ) (map : Properties)
    → get w p (retain (is_other window property) map)
      ≡ (if w == window && p == property then none else get w p map)
unfolding get
find-retain w p window property [] = ground arith
find-retain w p window property (((v, q), x) ∷ map) =
    ground (arith, find-retain w p window property map)

find-append :
    (w p window property : ℕ) (value : Property) (map : Properties)
    → get w p (map ++ (((window, property), value) ∷ [])) ≡ (
        if is_some (get w p map)
        then get w p map
        else if w == window && p == property
        then some value
        else none)
unfolding get
find-append w p window property value [] = ground arith
find-append w p window property value (((v, q), x) ∷ map) =
    ground (arith, find-append w p window property value map)

get-set_property :
    (w p window property : ℕ) (value : Property) (map : Properties)
    → get w p (set_property window property value map)
      ≡ (if w == window && p == property then some value else get w p map)
unfolding set_property
get-set_property w p window property value map =
    find-append w p window property value (retain (is_other window property) map)
    ∙ rw (find-retain w p window property map) (ground arith)

list-set_property :
    (w p window property : ℕ) (value : Property) (map : Properties)
    → count p (list w (set_property window property value map))
      ≡ (if w == window && p == property then 1 else count p (list w map))
unfolding set_property
list-set_property w p window property value map =
    list-append w p window property value (retain (is_other window property) map)
    ∙ ground (arith, list-retain window property w p map)

-- Setting a property makes it the one that is read and listed, once; removing it gives its value back and leaves none; and
-- every other property of every window is read, and listed as often, as before.
pub set_remove_lem :
    (window property w p : ℕ) (value : Property) (map : Properties)
    → let after = set_property window property value map in
      let (left, was) = remove window property after in
      let hit = w == window && p == property in
      (get w p after ≡ (if hit then some value else get w p map))
      × (count p (list w after) ≡ (if hit then 1 else count p (list w map)))
      × (was ≡ some value)
      × (get w p left ≡ (if hit then none else get w p map))
      × (count p (list w left) ≡ (if hit then 0 else count p (list w map)))
unfolding remove
set_remove_lem window property w p value map =
    let after = set_property window property value map in
    let read = get-set_property w p window property value map in
    let listed = list-set_property w p window property value map in
    (
      read,
      listed,
      get-set_property window property window property value map
          ∙ ground (arith, ==_refl window, ==_refl property),
      find-retain w p window property after ∙ ground (arith, read),
      list-retain window property w p after ∙ ground (arith, listed),
    )
