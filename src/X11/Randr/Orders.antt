-- ===== src/X11/Randr/Orders.antt =====
-- What does not depend on the order in which outputs are listed: the sort by their starts, and the
-- places that are written by index.
use mathlib.Core.List.{Permᴰ}
use mathlib.Core.List.Permᴰ.{nil, cons, swap, trans}
use xwlrvnc.Base.{
  ℕ, zero, suc, ◌+◌, ◌≡◌, refl, ap, ◌∙◌, subst, false, List, [], ◌∷◌, All, arith, set, ◌==◌, length,
  if◌then◌else◌,
}
use xwlrvnc.Base.Int.{ℤ, pos_part, eqb_ℤ, ltb_ℤ}
use xwlrvnc.X11.Randr.Pack.{Item, insert_item, sort_by_start}

All-perm : {A : Type 0} (P : A → Type 0) {xs ys : List A} → Permᴰ xs ys → All P xs → All P ys
All-perm P nil h = h
All-perm P (cons e d) h = (subst P e h.0, All-perm P d h.1)
All-perm P (swap e f) h = (subst P f h.1.0, (subst P e h.0, h.1.1))
All-perm P (trans d g) h = All-perm P g (All-perm P d h)

-- Any two of a list are related.
abbrev pub Apart : {A : Type 0} → (A → A → Type 0) → List A → Type 0
Apart R [] = Unit
Apart R (x ∷ xs) = All (R x) xs × Apart R xs

Apart-perm :
    {A : Type 0} (R : A → A → Type 0)
    → ((a b : A) → R a b → R b a)
    → {xs ys : List A} → Permᴰ xs ys
    → Apart R xs
    → Apart R ys
Apart-perm R flip nil h = h
Apart-perm R flip (cons {l₂ = ys} e d) h =
    (subst (λ z. All (R z) ys) e (All-perm (R _) d h.0), Apart-perm R flip d h.1)
Apart-perm R flip (swap {a = a} {b = b} {a' = a'} {l = l} e f) h = (
  (subst (λ z. R a' z) e (subst (λ z. R z a) f (flip a b h.0.0)), subst (λ z. All (R z) l) f h.1.0),
  (subst (λ z. All (R z) l) e h.0.1, h.1.1),
)
Apart-perm R flip (trans d g) h = Apart-perm R flip g (Apart-perm R flip d h)

-- Two entries begin at different places, or have different indices.
abbrev pub StartsApart : ℕ × Item → ℕ × Item → Type 0
StartsApart e f = eqb_ℤ e.1.start f.1.start ≡ false

abbrev pub IndexedApart : ℕ × Item → ℕ × Item → Type 0
IndexedApart e f = (e.0 == f.0) ≡ false

insert_item_comm :
    (e f : ℕ × Item) (l : List (ℕ × Item))
    → StartsApart e f
    → insert_item e (insert_item f l) ≡ insert_item f (insert_item e l)
insert_item_comm e f [] h = ground arith
insert_item_comm e f (g ∷ l) h = ground (arith, insert_item_comm e f l h)

pub sort_by_start_perm :
    {xs ys : List (ℕ × Item)}
    → Permᴰ xs ys
    → Apart StartsApart xs
    → sort_by_start xs ≡ sort_by_start ys
sort_by_start_perm nil h = refl
sort_by_start_perm (cons {b = b} {l₁ = xs} e d) h =
    ap (λ z. insert_item z (sort_by_start xs)) e ∙ ap (insert_item b) (sort_by_start_perm d h.1)
sort_by_start_perm (swap {a = a} {b = b} {a' = a'} {l = l} e f) h =
    insert_item_comm a b (sort_by_start l) h.0.0
    ∙ ap (λ z. insert_item z (insert_item a (sort_by_start l))) f
    ∙ ap (λ z. insert_item a' (insert_item z (sort_by_start l))) e
sort_by_start_perm (trans d g) h =
    sort_by_start_perm d h
    ∙ sort_by_start_perm g (Apart-perm StartsApart (λ a b k. ground arith) d h)

-- Each entry's value written at its index.
abbrev pub put_all : (Item → ℤ) → List (ℕ × Item) → List ℤ → List ℤ
put_all f [] out = out
put_all f ((i, it) ∷ es) out = put_all f es (set out i (f it))

set_comm :
    (out : List ℤ) (i j : ℕ) (v w : ℤ)
    → (i == j) ≡ false
    → set (set out i v) j w ≡ set (set out j w) i v
set_comm [] i j v w h = refl
set_comm (x ∷ out) zero zero v w h = ground arith
set_comm (x ∷ out) zero (suc j) v w h = refl
set_comm (x ∷ out) (suc i) zero v w h = refl
set_comm (x ∷ out) (suc i) (suc j) v w h = ap (◌∷◌ x) (set_comm out i j v w (ground arith))

pub put_all_perm :
    (f : Item → ℤ) {xs ys : List (ℕ × Item)} (out : List ℤ)
    → Permᴰ xs ys
    → Apart IndexedApart xs
    → put_all f xs out ≡ put_all f ys out
put_all_perm f out nil h = refl
put_all_perm f out (cons {a = a} {b = b} {l₂ = ys} e d) h =
    put_all_perm f (set out a.0 (f a.1)) d h.1 ∙ ap (λ z. put_all f ys (set out z.0 (f z.1))) e
put_all_perm f out (swap {a = a} {b = b} {a' = a'} {l = l} e g) h =
    ap (put_all f l) (set_comm out a.0 b.0 (f a.1) (f b.1) h.0.0)
    ∙ ap (λ z. put_all f l (set (set out z.0 (f z.1)) a.0 (f a.1))) g
    ∙ ap (λ z. put_all f l (set (set out a'.0 (f a'.1)) z.0 (f z.1))) e
put_all_perm f out (trans d g) h =
    put_all_perm f out d h
    ∙ put_all_perm f out g (Apart-perm IndexedApart (λ a b k. ground arith) d h)

-- Items with indices.
abbrev pub tag : List ℕ → List Item → List (ℕ × Item)
tag [] items = []
tag (i ∷ is) [] = []
tag (i ∷ is) (it ∷ items) = (i, it) ∷ tag is items

-- In another order, the items keep their indices.
pub tag_perm :
    {xs ys : List Item} (is : List ℕ)
    → length is ≡ length xs
    → Permᴰ xs ys
    → (js : List ℕ) × (length js ≡ length ys) × Permᴰ (tag is xs) (tag js ys)
tag_perm [] n nil = ([], refl, nil)
tag_perm (i ∷ is) n nil = ground arith
tag_perm [] n (cons e d) = ground arith
tag_perm (i ∷ is) n (cons e d) =
    let (js, m, p) = tag_perm is (omega arith) d in
    (i ∷ js, omega arith, cons (ap (λ z. (i, z)) e) p)
tag_perm [] n (swap e f) = ground arith
tag_perm (i ∷ []) n (swap e f) = ground arith
tag_perm (i ∷ j ∷ is) n (swap e f) =
    (j ∷ i ∷ is, omega arith, swap (ap (λ z. (i, z)) e) (ap (λ z. (j, z)) f))
tag_perm is n (trans d g) =
    let (js, m, p) = tag_perm is n d in let (ks, o, q) = tag_perm js m g in (ks, o, trans p q)

-- The physical length of the outputs that begin before a place.
abbrev pub shift : ℤ → List Item → ℕ
shift s [] = 0
shift s (it ∷ items) = (if ltb_ℤ it.start s then pos_part it.phys else 0) + shift s items

pub shift_perm : (s : ℤ) {xs ys : List Item} → Permᴰ xs ys → shift s xs ≡ shift s ys
shift_perm s nil = refl
shift_perm s (cons {b = b} {l₁ = xs} e d) =
    ap (λ z. shift s (z ∷ xs)) e
    ∙ ap (λ n. (if ltb_ℤ b.start s then pos_part b.phys else 0) + n) (shift_perm s d)
shift_perm s (swap {a = a} {b = b} {a' = a'} {l = l} e f) =
    shift_comm ∙ ap (λ z. shift s (z ∷ a ∷ l)) f ∙ ap (λ z. shift s (a' ∷ z ∷ l)) e
  where
    shift_comm : shift s (a ∷ b ∷ l) ≡ shift s (b ∷ a ∷ l)
    shift_comm = omega arith
shift_perm s (trans d g) = shift_perm s d ∙ shift_perm s g
