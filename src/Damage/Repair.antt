-- ===== src/Damage/Repair.antt =====
-- No damage is lost between two repairs, and each report reaches its end.
use xwlrvnc.Base.{
  inr, inl, ℕ, ◌≡◌, sym, ap, ◌∙◌, Bool, false, not, ◌==◌, if◌then◌else◌, List, [], ◌∷◌, ◌++◌, some,
  is_empty, find, retain, All, arith, Bool-cases,
}
use mathlib.Core.List.{append_assoc, append-nil}
use xwlrvnc.Util.Boxes.{Rectangle, has_area}
use xwlrvnc.Damage.{DamageObj, raw, is_obj, subtract, feed, feed_all, add_damage, extended}

feed-extended :
    (new : List Rectangle) (geom : ℕ × ℕ) (o : DamageObj)
    → (o.level == raw) ≡ false
    → (feed new geom o).0 ≡ extended o new
unfolding feed
feed-extended new geom o h = ground arith

feed_same :
    (new : List Rectangle) (geom : ℕ × ℕ) (o : DamageObj)
    → ((feed new geom o).0.client ≡ o.client) × ((feed new geom o).0.id ≡ o.id)
unfolding feed
feed_same new geom o = ground arith

find-feed_all :
    (client id : ℕ) (new : List Rectangle) (geom : ℕ × ℕ) (objs : List DamageObj) (o : DamageObj)
    → find (is_obj client id) objs ≡ some o
    → find (is_obj client id) (feed_all new geom objs).0 ≡ some (feed new geom o).0
find-feed_all client id new geom [] o h = cc
find-feed_all client id new geom (p ∷ objs) o h =
    ground (arith, find-feed_all client id new geom objs o, feed_same new geom p)

find-live :
    (client id : ℕ) (dead : ℕ → Bool) (objs : List DamageObj) (o : DamageObj)
    → dead client ≡ false
    → find (is_obj client id) objs ≡ some o
    → find (is_obj client id) (retain (λ p. not (dead p.client)) objs) ≡ some o
find-live client id dead [] o d h = cc
find-live client id dead (p ∷ objs) o d h = elim (Bool-cases (is_obj client id p)) [
  | inl hit ↦
      let same : p.client ≡ client = ground arith in
      let alive : dead p.client ≡ false = ap dead same ∙ d in ground arith
  | inr miss ↦ ground (arith, find-live client id dead objs o d)
]

-- A call of `add_damage`: which clients are dead by then, what is fed, and the screen's size.
pub record Feed : Type 0 where
  pub dead : ℕ → Bool
  pub new : List Rectangle
  pub geom : ℕ × ℕ

abbrev pub run : List Feed → List DamageObj → List DamageObj
run [] objs = objs
run (f ∷ feeds) objs = run feeds (add_damage f.dead f.new f.geom objs).0

-- All rectangles fed that have an area.
abbrev pub fed : List Feed → List Rectangle
fed [] = []
fed (f ∷ feeds) = retain has_area f.new ++ fed feeds

find-fed :
    (client id : ℕ) (kept : List Rectangle) (f : Feed) (objs : List DamageObj) (o : DamageObj)
    → f.dead client ≡ false
    → find (is_obj client id) objs ≡ some o
    → (o.level == raw) ≡ false
    → find
        (is_obj client id)
        (if is_empty kept
          then (objs, [])
          else feed_all kept f.geom (retain (λ o. not (f.dead o.client)) objs)).0
      ≡ some (extended o kept)
find-fed client id [] f objs o d h l =
    h
    ∙ ap (λ (region : List Rectangle). some (record o { region = region }))
        (sym (append-nil o.region))
find-fed client id (r ∷ kept) f objs o d h l =
    find-feed_all client id (r ∷ kept) f.geom (retain (λ o. not (f.dead o.client)) objs) o
      (find-live client id f.dead objs o d h)
    ∙ ap some (feed-extended (r ∷ kept) f.geom o l)

find-add_damage :
    (client id : ℕ) (f : Feed) (objs : List DamageObj) (o : DamageObj)
    → f.dead client ≡ false
    → find (is_obj client id) objs ≡ some o
    → (o.level == raw) ≡ false
    → find (is_obj client id) (add_damage f.dead f.new f.geom objs).0
      ≡ some (extended o (retain has_area f.new))
unfolding add_damage
find-add_damage client id f objs o d h l = find-fed client id (retain has_area f.new) f objs o d h l

find-run :
    (client id : ℕ) (feeds : List Feed) (objs : List DamageObj) (o : DamageObj)
    → All (λ f. f.dead client ≡ false) feeds
    → find (is_obj client id) objs ≡ some o
    → (o.level == raw) ≡ false
    → find (is_obj client id) (run feeds objs) ≡ some (extended o (fed feeds))
find-run client id [] objs o d h l =
    h
    ∙ ap (λ (region : List Rectangle). some (record o { region = region }))
        (sym (append-nil o.region))
find-run client id (f ∷ feeds) objs o d h l =
    find-run client id feeds (add_damage f.dead f.new f.geom objs).0
      (extended o (retain has_area f.new)) d.1 (find-add_damage client id f objs o d.0 h l) l
    ∙ ap (λ (region : List Rectangle). some (record o { region = region }))
        (append_assoc o.region (retain has_area f.new) (fed feeds))

find-subtract :
    (client id : ℕ) (objs : List DamageObj) (o : DamageObj)
    → find (is_obj client id) objs ≡ some o
    → (o.level == raw) ≡ false
    → find (is_obj client id) (subtract client id objs).0 ≡ some (record o { region = [] })
unfolding subtract
find-subtract client id [] o h l = cc
find-subtract client id (p ∷ objs) o h l = ground (arith, find-subtract client id objs o)

-- For a client that stays alive, a repair hands back all the damage of an object since the last one, whatever its
-- level other than raw: what it held, then every rectangle fed since that has an area, in order, each
-- once. The object holds none afterwards and is otherwise as it was.
pub subtract-run :
    (client id : ℕ) (feeds : List Feed) (objs : List DamageObj) (o : DamageObj)
    → All (λ f. f.dead client ≡ false) feeds
    → find (is_obj client id) objs ≡ some o
    → (o.level == raw) ≡ false
    → let (after, parts) = subtract client id (run feeds objs) in
      (parts ≡ o.region ++ fed feeds)
      × (find (is_obj client id) after ≡ some (record o { region = [] }))
unfolding subtract
subtract-run client id feeds objs o d h l =
    let held = find-run client id feeds objs o d h l in
    (ground (arith, held), find-subtract client id (run feeds objs) (extended o (fed feeds)) held l)
