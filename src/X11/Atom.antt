-- ===== src/X11/Atom.antt =====
-- bridge/x11/atom.rs: the server's table of atoms. A name is its bytes.
pub mod Predefined
pub mod Names
use xwlrvnc.Base.Assoc
use xwlrvnc.Base.{
  ℕ, suc, ◌+◌, Bool, Option, none, some, List, [], ◌∷◌, ◌++◌, if◌then◌else◌, bytes_eq, length,
}
use xwlrvnc.Base.Word.{wrapping_add32}

pub record Atoms : Type 0 where
  pub by_name : List (List ℕ × ℕ)
  pub by_id : List (ℕ × List ℕ)
  pub next : ℕ

-- `by_name.get(name)`.
abbrev pub id_in : List ℕ → List (List ℕ × ℕ) → Option ℕ
id_in name [] = none
id_in name ((known, id) ∷ table) = if bytes_eq known name then some id else id_in name table

-- The names with their numbers from `id` on.
abbrev pub ids_of : ℕ → List (List ℕ) → List (List ℕ × ℕ)
ids_of id [] = []
ids_of id (name ∷ names) = (name, id) ∷ ids_of (suc id) names

abbrev pub names_of : ℕ → List (List ℕ) → List (ℕ × List ℕ)
names_of id [] = []
names_of id (name ∷ names) = (id, name) ∷ names_of (suc id) names

-- `Default`, from the predefined atoms.
unfoldable pub default : List (List ℕ) → Atoms
default predefined = record {
  by_name = ids_of 1 predefined;
  by_id = names_of 1 predefined;
  next = length predefined + 1;
}

abbrev pub add : List ℕ → Atoms → Atoms
add name t = record {
  by_name = t.by_name ++ ((name, t.next) ∷ []);
  by_id = Assoc.insert t.next name t.by_id;
  next = wrapping_add32 t.next 1;
}

abbrev pub intern_as : Option ℕ → List ℕ → Bool → Atoms → Atoms × ℕ
intern_as (some id) name only_if_exists t = (t, id)
intern_as none name only_if_exists t = if only_if_exists then (t, 0) else (add name t, t.next)

unfoldable pub intern : List ℕ → Bool → Atoms → Atoms × ℕ
intern name only_if_exists t = intern_as (id_in name t.by_name) name only_if_exists t

unfoldable pub name : ℕ → Atoms → Option (List ℕ)
name id t = Assoc.get id t.by_id
