-- ===== src/X11/Randr/Rows.antt =====
-- The layout of a row: outputs that stand edge to edge in logical space do so on the screen, in
-- whatever order they are listed.
pub mod Places
use mathlib.Core.List.{Permᴰ, append_assoc}
use mathlib.Core.List.Permᴰ as Permᴰ
use xwlrvnc.Base.{
  ℕ, zero, suc, ◌+◌, ◌^◌, ◌≤◌, ◌<◌, ◌≡◌, refl, sym, ap, ◌∙◌, true, false, List, [], ◌∷◌, ◌++◌, map,
  none, some, length, length-append, set, All, arith, ◌==◌,
}
use xwlrvnc.Base.Int.{ℤ, pos, ◌+ℤ◌, leb_ℤ, i32}
use xwlrvnc.X11.Randr.Pack.{
  Item, edge, put_edge, start_at, edges_after, pack_from, insert_item, sort_by_start, enumerate,
  origin, pack_axis,
}
use xwlrvnc.X11.Randr.Orders.{
  Apart, StartsApart, IndexedApart, sort_by_start_perm, put_all, put_all_perm, tag, tag_perm, shift,
  shift_perm,
}

-- An output's logical and physical lengths.
abbrev pub Lengths : Type 0
Lengths = ℕ × ℕ

-- A row that begins at `start`: each output begins where the one before ends.
abbrev pub row : ℕ → List Lengths → List Item
row start [] = []
row start ((len, phys) ∷ rest) =
    record { start = pos start; len = pos len; phys = pos phys } ∷ row (start + len) rest

abbrev pub span : ℕ → List Lengths → ℕ
span start [] = start
span start ((len, phys) ∷ rest) = span (start + len) rest

abbrev pub width : ℕ → List Lengths → ℕ
width p [] = p
width p ((len, phys) ∷ rest) = width (p + phys) rest

abbrev pub HaveLength : List Lengths → Type 0
HaveLength = All (λ (l : Lengths). 0 < l.0)

span_grows : (start : ℕ) (ls : List Lengths) → start ≤ span start ls
span_grows start [] = omega arith
span_grows start ((len, phys) ∷ ls) = omega (arith, span_grows (start + len) ls)

width_grows : (p : ℕ) (ls : List Lengths) → p ≤ width p ls
width_grows p [] = omega arith
width_grows p ((len, phys) ∷ ls) = omega (arith, width_grows (p + phys) ls)

i32-sum : (a b : ℕ) → a + b < 2 ^ 31 → i32 (pos a +ℤ pos b) ≡ pos (a + b)
unfolding i32 ◌+ℤ◌
i32-sum a b h = ground arith

insert_item-row :
    (i a len phys : ℕ) (is : List ℕ) (ls : List Lengths)
    → let it : Item = record { start = pos a; len = pos len; phys = pos phys } in
      insert_item (i, it) (tag is (row (a + len) ls)) ≡ (i, it) ∷ tag is (row (a + len) ls)
insert_item-row i a len phys [] ls = refl
insert_item-row i a len phys (j ∷ is) [] = refl
insert_item-row i a len phys (j ∷ is) ((l, p) ∷ ls) = ground arith

pub sort_by_start-row :
    (is : List ℕ) (a : ℕ) (ls : List Lengths)
    → sort_by_start (tag is (row a ls)) ≡ tag is (row a ls)
sort_by_start-row [] a ls = refl
sort_by_start-row (i ∷ is) a [] = refl
sort_by_start-row (i ∷ is) a ((len, phys) ∷ ls) =
    ap (insert_item (i, record { start = pos a; len = pos len; phys = pos phys }))
      (sort_by_start-row is (a + len) ls)
    ∙ insert_item-row i a len phys is ls

-- The outputs of a row begin at different places.
row_starts_later :
    (i b : ℕ) (it : Item) (is : List ℕ) (a : ℕ) (ls : List Lengths)
    → it.start ≡ pos b
    → b < a
    → All (StartsApart (i, it)) (tag is (row a ls))
row_starts_later i b it [] a ls e h = tt
row_starts_later i b it (j ∷ is) a [] e h = tt
row_starts_later i b it (j ∷ is) a ((len, phys) ∷ ls) e h =
    (ground arith, row_starts_later i b it is (a + len) ls e (omega arith))

pub row-StartsApart :
    (is : List ℕ) (a : ℕ) (ls : List Lengths)
    → HaveLength ls
    → Apart StartsApart (tag is (row a ls))
row-StartsApart [] a ls h = tt
row-StartsApart (i ∷ is) a [] h = tt
row-StartsApart (i ∷ is) a ((len, phys) ∷ ls) h = (
  row_starts_later i a (record { start = pos a; len = pos len; phys = pos phys }) is (a + len) ls
      refl (omega (arith, h.0)),
  row-StartsApart is (a + len) ls h.1,
)

-- No edge is known beyond `a`.
abbrev pub UpTo : ℕ → List (ℤ × ℤ) → Type 0
UpTo a = All (λ (e : ℤ × ℤ). leb_ℤ e.0 (pos a) ≡ true)

edge_beyond : (a b : ℕ) (m : List (ℤ × ℤ)) → UpTo a m → a < b → edge (pos b) m ≡ none
edge_beyond a b [] h l = refl
edge_beyond a b ((k, v) ∷ m) h l = ground (arith, edge_beyond a b m h.1 l)

edge-put_edge : (k v : ℤ) (m : List (ℤ × ℤ)) → edge k (put_edge k v m) ≡ some v
edge-put_edge k v [] = ground arith
edge-put_edge k v ((j, w) ∷ m) = ground (arith, edge-put_edge k v m)

weaken-UpTo : (a b : ℕ) (m : List (ℤ × ℤ)) → UpTo a m → a ≤ b → UpTo b m
weaken-UpTo a b [] h l = tt
weaken-UpTo a b ((k, v) ∷ m) h l = (ground arith, weaken-UpTo a b m h.1 l)

put_edge-UpTo :
    (a b : ℕ) (v : ℤ) (m : List (ℤ × ℤ)) → UpTo a m → a ≤ b → UpTo b (put_edge (pos b) v m)
put_edge-UpTo a b v [] h l = (ground arith, tt)
put_edge-UpTo a b v ((j, w) ∷ m) h l =
    ground (arith, put_edge-UpTo a b v m h.1 l, weaken-UpTo a b m h.1 l)

-- The edges after one output of a row.
edges_after-row :
    (a len phys p : ℕ) (bound : List (ℤ × ℤ))
    → UpTo a bound
    → edge (pos a) bound ≡ some (pos p)
    → 0 < len
    → a + len < 2 ^ 31
    → p + phys < 2 ^ 31
    → edges_after (record { start = pos a; len = pos len; phys = pos phys }) (pos p) bound
      ≡ put_edge (pos (a + len)) (pos (p + phys)) bound
edges_after-row a len phys p bound up e l la lp =
    rw (i32-sum a len la, i32-sum p phys lp)
      (ground (arith, edge_beyond a (a + len) bound up (omega arith)))

-- Nothing of a row begins before its start.
pub shift_start : (s a : ℕ) (ls : List Lengths) → s ≤ a → shift (pos s) (row a ls) ≡ 0
shift_start s a [] h = refl
shift_start s a ((len, phys) ∷ ls) h = ground (arith, shift_start s (a + len) ls (omega arith))

-- The rest of a row `whole`, from the place `a` on, which is at `p` on the screen.
abbrev pub Rest : List Item → ℕ → ℕ → List Lengths → Type 0
Rest whole a p ls = (s : ℕ) → a ≤ s → shift (pos s) whole ≡ p + shift (pos s) (row a ls)

Rest-tail :
    (whole : List Item) (a p len phys : ℕ) (ls : List Lengths)
    → 0 < len
    → Rest whole a p ((len, phys) ∷ ls)
    → Rest whole (a + len) (p + phys) ls
Rest-tail whole a p len phys ls l h s le = ground (arith, h s (omega arith))

pub pack_from-row :
    (whole : List Item) (is : List ℕ) (a p : ℕ) (ls : List Lengths) (bound : List (ℤ × ℤ))
    (out : List ℤ)
    → UpTo a bound
    → edge (pos a) bound ≡ some (pos p)
    → HaveLength ls
    → span a ls < 2 ^ 31
    → width p ls < 2 ^ 31
    → Rest whole a p ls
    → pack_from (tag is (row a ls)) bound out
      ≡ put_all (λ it. pos (shift it.start whole)) (tag is (row a ls)) out
pack_from-row whole [] a p ls bound out up e h sa wp r = refl
pack_from-row whole (i ∷ is) a p [] bound out up e h sa wp r = refl
pack_from-row whole (i ∷ is) a p ((len, phys) ∷ ls) bound out up e h sa wp r =
    let it : Item = record { start = pos a; len = pos len; phys = pos phys } in
    let sg = span_grows (a + len) ls in
    let wg = width_grows (p + phys) ls in
    let next = put_edge (pos (a + len)) (pos (p + phys)) bound in
    let placed : start_at (pos a) bound ≡ pos p = ground arith in
    let here : shift (pos a) whole ≡ p =
      ground (arith, r a (omega arith), shift_start a (a + len) ls (omega arith)) in
    let known = edges_after-row a len phys p bound up e h.0 (omega arith) (omega arith) in
    let rest =
      pack_from-row whole is (a + len) (p + phys) ls next (set out i (pos p))
        (put_edge-UpTo a (a + len) (pos (p + phys)) bound up (omega arith))
        (edge-put_edge (pos (a + len)) (pos (p + phys)) bound) h.1 (omega arith) (omega arith)
        (Rest-tail whole a p len phys ls h.0 r) in
    let order = tag is (row (a + len) ls) in
    ap (λ px. pack_from order (edges_after it px bound) (set out i px)) placed
    ∙ ap (λ b. pack_from order b (set out i (pos p))) known
    ∙ rest
    ∙ ap (λ n. put_all (λ it. pos (shift it.start whole)) order (set out i (pos n))) (sym here)
