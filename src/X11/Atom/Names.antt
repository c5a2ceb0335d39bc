-- ===== src/X11/Atom/Names.antt =====
-- Atoms keep their names.
use xwlrvnc.Base.Assoc
use xwlrvnc.Base.{
  ℕ, suc, ◌+◌, ◌^◌, ◌≤◌, ◌<◌, ◌≡◌, refl, ap, ◌∙◌, inl, inr, Bool, false, Option, none, some, List,
  [], ◌∷◌, ◌++◌, arith, ==_refl, Bool-cases, bytes_eq, bytes_eq_refl, eq_of_bytes, length,
}
use xwlrvnc.X11.Atom.{Atoms, add, default, id_in, ids_of, intern, intern_as, name, names_of}

-- Every atom that a name stands for has the name, and is below the next one.
abbrev pub IsNamed : Atoms → List (List ℕ × ℕ) → Type 0
IsNamed t [] = Unit
IsNamed t ((n, id) ∷ table) =
    (Assoc.get id t.by_id ≡ some n) × (1 ≤ id) × (id < t.next) × IsNamed t table

abbrev pub IsTable : Atoms → Type 0
IsTable t = IsNamed t t.by_name × (1 ≤ t.next)

get-names_of : (id j : ℕ) (names : List (List ℕ)) → j < id → Assoc.get j (names_of id names) ≡ none
get-names_of id j [] h = refl
get-names_of id j (n ∷ names) h = ground (arith, get-names_of (suc id) j names)

-- Every table of which the names from `id` on are a part.
ids_of-IsNamed :
    (t : Atoms) (id : ℕ) (names : List (List ℕ))
    → 1 ≤ id
    → id + length names ≤ t.next
    → ((j : ℕ) → id ≤ j → Assoc.get j t.by_id ≡ Assoc.get j (names_of id names))
    → IsNamed t (ids_of id names)
ids_of-IsNamed t id [] h k same = tt
ids_of-IsNamed t id (n ∷ names) h k same = (
  same id (omega arith) ∙ ground (arith, ==_refl id),
  h,
  omega arith,
  ids_of-IsNamed t (suc id) names (omega arith) (omega arith)
      (λ j le. same j (omega arith) ∙ ground arith),
)

pub default-IsTable : (names : List (List ℕ)) → IsTable (default names)
unfolding default
default-IsTable names =
    (ids_of-IsNamed (default names) 1 names (omega arith) (omega arith) (λ j le. refl), omega arith)

add-IsNamed :
    (n : List ℕ) (t : Atoms) (table : List (List ℕ × ℕ))
    → t.next + 1 < 2 ^ 32
    → IsNamed t table
    → IsNamed (add n t) table
add-IsNamed n t [] h i = tt
add-IsNamed n t ((m, id) ∷ table) h (e, pos, lt, i) = (
  Assoc.get-insert t.next id n t.by_id ∙ ground arith,
  pos,
  ground arith,
  add-IsNamed n t table h i,
)

append-IsNamed :
    (t : Atoms) (table : List (List ℕ × ℕ)) (n : List ℕ) (id : ℕ)
    → IsNamed t table
    → Assoc.get id t.by_id ≡ some n
    → 1 ≤ id
    → id < t.next
    → IsNamed t (table ++ ((n, id) ∷ []))
append-IsNamed t [] n id i e pos lt = (e, pos, lt, tt)
append-IsNamed t ((m, j) ∷ table) n id (f, p, l, i) e pos lt =
    (f, p, l, append-IsNamed t table n id i e pos lt)

id_in-append :
    (n : List ℕ) (id : ℕ) (table : List (List ℕ × ℕ))
    → id_in n table ≡ none
    → id_in n (table ++ ((n, id) ∷ [])) ≡ some id
id_in-append n id [] h = ground (arith, bytes_eq_refl n)
id_in-append n id ((m, j) ∷ table) h = ground (arith, id_in-append n id table)

known_lem :
    (n : List ℕ) (id : ℕ) (t : Atoms) (table : List (List ℕ × ℕ))
    → IsNamed t table
    → id_in n table ≡ some id
    → (Assoc.get id t.by_id ≡ some n) × (1 ≤ id) × (id < t.next)
known_lem n id t [] i h = cc
known_lem n id t ((m, j) ∷ table) (e, pos, lt, i) h = elim (Bool-cases (bytes_eq m n)) [
  | inl same ↦
      let named : m ≡ n = eq_of_bytes m n same in
      let here : j ≡ id = ground arith in rw (← named, ← here) (e, pos, lt)
  | inr other ↦ known_lem n id t table i (ground arith)
]

intern_from :
    (o : Option ℕ) (n : List ℕ) (again : Bool) (t : Atoms)
    → id_in n t.by_name ≡ o
    → t.next + 1 < 2 ^ 32
    → IsTable t
    → let (u, id) = intern_as o n false t in
      IsTable u
      × (1 ≤ id)
      × (Assoc.get id u.by_id ≡ some n)
      × ((intern_as (id_in n u.by_name) n again u).1 ≡ id)
      × IsNamed u t.by_name
intern_from (some id) n again t known room i =
    let (named, pos, lt) = known_lem n id t t.by_name i.0 known in
    (i, pos, named, ap (λ o. (intern_as o n again t).1) known, i.0)
intern_from none n again t fresh room i =
    let new_name : Assoc.get t.next (add n t).by_id ≡ some n =
      Assoc.get-insert t.next t.next n t.by_id ∙ ground (arith, ==_refl t.next) in
    let old = add-IsNamed n t t.by_name room i.0 in
    let found = id_in-append n t.next t.by_name fresh in
    (
      (append-IsNamed (add n t) t.by_name n t.next old new_name i.1 (ground arith), ground arith),
      i.1,
      new_name,
      ap (λ o. (intern_as o n again (add n t)).1) found,
      old,
    )

-- In a table where every name's atom has that name and lies from 1 on below the next one, as in
-- the table of the predefined atoms, interning a name gives an atom that is not 0, whose name it
-- is, and that interning the name again gives, also only if it exists; every atom that had a name
-- keeps it, and the table stays as it should be. The table must have room: its next atom is below
-- 2 ^ 32 - 1.
pub intern_lem :
    (n : List ℕ) (again : Bool) (t : Atoms)
    → t.next + 1 < 2 ^ 32
    → IsTable t
    → let (u, id) = intern n false t in
      IsTable u
      × (1 ≤ id)
      × (name id u ≡ some n)
      × ((intern n again u).1 ≡ id)
      × IsNamed u t.by_name
unfolding intern name
intern_lem n again t room i = intern_from (id_in n t.by_name) n again t refl room i
