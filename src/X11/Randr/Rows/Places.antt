-- ===== src/X11/Randr/Rows/Places.antt =====
-- Where the outputs of a row are put, in whatever order they are listed.
use mathlib.Core.List.{Permᴰ, append_assoc}
use mathlib.Core.List.Permᴰ.{symm}
use xwlrvnc.Base.{
  ℕ, suc, subst, ◌^◌, ◌<◌, ◌≡◌, refl, sym, ap, ◌∙◌, List, [], ◌∷◌, ◌++◌, map, All, arith, set,
  length, length-append,
}
use xwlrvnc.Base.Int.{ℤ, pos}
use xwlrvnc.X11.Randr.Pack.{Item, pack_from, sort_by_start, enumerate, origin, pack_axis}
use xwlrvnc.X11.Randr.Orders.{
  Apart, IndexedApart, put_all, put_all_perm, shift, shift_perm, sort_by_start_perm, tag, tag_perm,
}
use xwlrvnc.X11.Randr.Rows.{
  HaveLength, Lengths, pack_from-row, row, row-StartsApart, sort_by_start-row, span, width,
}

abbrev from : ℕ → List Item → List ℕ
from i [] = []
from i (it ∷ items) = i ∷ from (suc i) items

tag_from : (i : ℕ) (items : List Item) → tag (from i items) items ≡ enumerate i items
tag_from i [] = refl
tag_from i (it ∷ items) = ap (◌∷◌ (i, it)) (tag_from (suc i) items)

length-from : (i : ℕ) (items : List Item) → length (from i items) ≡ length items
length-from i [] = refl
length-from i (it ∷ items) = omega (arith, length-from (suc i) items)

indexed_later :
    (k : ℕ × Item) (i : ℕ) (items : List Item) → k.0 < i → All (IndexedApart k) (enumerate i items)
indexed_later k i [] h = tt
indexed_later k i (it ∷ items) h = (ground arith, indexed_later k (suc i) items (omega arith))

enumerate-IndexedApart : (i : ℕ) (items : List Item) → Apart IndexedApart (enumerate i items)
enumerate-IndexedApart i [] = tt
enumerate-IndexedApart i (it ∷ items) =
    (indexed_later (i, it) (suc i) items (omega arith), enumerate-IndexedApart (suc i) items)

set-append :
    (before after : List ℤ) (v w : ℤ)
    → set (before ++ (v ∷ after)) (length before) w ≡ before ++ (w ∷ after)
set-append [] after v w = refl
set-append (x ∷ before) after v w = ap (◌∷◌ x) (set-append before after v w)

put_all-enumerate :
    (f : Item → ℤ) (i : ℕ) (items : List Item) (before : List ℤ)
    → length before ≡ i
    → put_all f (enumerate i items) (before ++ map (λ it. pos 0) items) ≡ before ++ map f items
put_all-enumerate f i [] before n = refl
put_all-enumerate f i (it ∷ items) before n =
    let zeros : List ℤ = map (λ it. pos 0) items in
    let here : set (before ++ (pos 0 ∷ zeros)) i (f it) ≡ (before ++ (f it ∷ [])) ++ zeros =
      ap (λ k. set (before ++ (pos 0 ∷ zeros)) k (f it)) (sym n)
      ∙ set-append before zeros (pos 0) (f it)
      ∙ sym (append_assoc before (f it ∷ []) zeros) in
    ap (put_all f (enumerate (suc i) items)) here
    ∙ put_all-enumerate f (suc i) items (before ++ (f it ∷ []))
        (omega (arith, length-append before (f it ∷ []), n))
    ∙ append_assoc before (f it ∷ []) (map f items)

map_ext :
    (f g : Item → ℤ) → ((it : Item) → f it ≡ g it) → (items : List Item) → map f items ≡ map g items
map_ext f g h [] = refl
map_ext f g h (it ∷ items) =
    ap (λ v. v ∷ map f items) (h it) ∙ ap (◌∷◌ (g it)) (map_ext f g h items)

-- The places of a row whose outputs have these indices.
pack_from-tag :
    (start : ℕ) (is : List ℕ) (ls : List Lengths) (out : List ℤ)
    → HaveLength ls
    → span start ls < 2 ^ 31
    → width 0 ls < 2 ^ 31
    → pack_from (tag is (row start ls)) (origin (tag is (row start ls))) out
      ≡ put_all (λ it. pos (shift it.start (row start ls))) (tag is (row start ls)) out
pack_from-tag start [] ls out h sa wp = refl
pack_from-tag start (i ∷ is) [] out h sa wp = refl
pack_from-tag start (i ∷ is) ((len, phys) ∷ ls) out h sa wp =
    pack_from-row (row start ((len, phys) ∷ ls)) (i ∷ is) start 0 ((len, phys) ∷ ls)
      ((pos start, pos 0) ∷ []) out (ground arith, tt) (ground arith) h sa wp (λ s le. omega arith)

-- Outputs that stand in a row in the compositor's logical space, each beginning where another ends and the first of
-- them at a place that is not negative, are put on the screen edge to edge from 0, in whatever order they are
-- listed and whatever the scales: each begins where the physical lengths of those before it in the row add up to. This takes
-- the logical lengths not to be 0 and both rows to end within 31 bits.
pub pack_axis-row :
    (start : ℕ) (ls : List Lengths) (items : List Item)
    → Permᴰ items (row start ls)
    → HaveLength ls
    → span start ls < 2 ^ 31
    → width 0 ls < 2 ^ 31
    → pack_axis items ≡ map (λ it. pos (shift it.start items)) items
unfolding pack_axis
pack_axis-row start ls items d h sa wp =
    let whole = row start ls in
    let zeros : List ℤ = map (λ it. pos 0) items in
    let f : Item → ℤ = λ it. pos (shift it.start whole) in
    let (js, m, p) = tag_perm (from 0 items) (length-from 0 items) d in
    let listed = tag_from 0 items in
    let sorted : sort_by_start (enumerate 0 items) ≡ tag js whole =
      ap sort_by_start (sym listed)
      ∙ sym (sort_by_start_perm (symm p) (row-StartsApart js start ls h))
      ∙ sort_by_start-row js start ls in
    let apart : Apart IndexedApart (tag (from 0 items) items) =
      subst (Apart IndexedApart) (sym listed) (enumerate-IndexedApart 0 items) in
    ap (λ order. pack_from order (origin order) zeros) sorted
    ∙ pack_from-tag start js ls zeros h sa wp
    ∙ sym (put_all_perm f zeros p apart)
    ∙ ap (λ es. put_all f es zeros) listed
    ∙ put_all-enumerate f 0 items [] refl
    ∙ map_ext f (λ it. pos (shift it.start items)) (λ it. ap pos (sym (shift_perm it.start d)))
        items
