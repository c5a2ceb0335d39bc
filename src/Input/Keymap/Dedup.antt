-- ===== src/Input/Keymap/Dedup.antt =====
-- Blanking keysyms keeps each of them within reach, on one key only if need be.
use xwlrvnc.Base.Assoc
use xwlrvnc.Base.{
  ℕ, suc, ◌≤◌, ◌≡◌, refl, sym, ap, ◌∙◌, ◌≢◌, ◌⊎◌, inl, inr, Bool, true, false, ◌&&◌, ◌||◌, Option,
  none, some, List, [], ◌∷◌, arith, ==_refl, Bool-cases, if◌then◌else◌, leb, ◌==◌, any, tally,
}
use xwlrvnc.Input.Keymap.{
  Key, Owners, at_both, blank, blank_key, blank_keys, dedup, has, keeps, note, note_key, note_keys,
  or_insert,
}

-- What becomes of a keysym's owner at a key that has it.
abbrev entry : ℕ → Key → ℕ → Option (Option ℕ) → Option (Option ℕ)
entry i key sym o = some (if at_both sym key then none else or_insert i o)

get-note :
    (i : ℕ) (key : Key) (s sym : ℕ) (m : Owners)
    → sym ≢ 0
    → Assoc.get sym (note i key s m)
      ≡ (if s == sym then entry i key sym (Assoc.get sym m) else Assoc.get sym m)
get-note i key s sym m h = elim (Bool-cases (s == sym)) [
  | inl same ↦
      let e : s ≡ sym = ground arith in
      rw e (
        ground (
          arith,
          ==_refl sym,
          Assoc.get-insert sym sym (if at_both sym key then none else or_insert i (Assoc.get sym m))
              m,
        ))
  | inr other ↦ ground (
    arith,
    Assoc.get-insert s sym (if at_both s key then none else or_insert i (Assoc.get s m)) m,
  )
]

unfoldable next : ℕ → ℕ → Key → Option (Option ℕ) → Option (Option ℕ)
next sym i key o = if has sym key then entry i key sym o else o

get-note_key :
    (i : ℕ) (key : Key) (sym : ℕ) (m : Owners)
    → sym ≢ 0
    → Assoc.get sym (note_key i key m) ≡ next sym i key (Assoc.get sym m)
unfolding next
get-note_key i key sym m h =
    let a = note i key key.base m in
    let b = note i key key.shift a in
    let c = note i key key.level3 b in
    rw
      (
        get-note i key key.shift3 sym c h,
        get-note i key key.level3 sym b h,
        get-note i key key.shift sym a h,
        get-note i key key.base sym m h,
      )
      (ground arith)

-- The owner of a keysym after the first loop.
abbrev owner_of : ℕ → ℕ → List Key → Option (Option ℕ) → Option (Option ℕ)
owner_of sym i [] o = o
owner_of sym i (key ∷ keys) o = owner_of sym (suc i) keys (next sym i key o)

get-note_keys :
    (i : ℕ) (keys : List Key) (sym : ℕ) (m : Owners)
    → sym ≢ 0
    → Assoc.get sym (note_keys i keys m) ≡ owner_of sym i keys (Assoc.get sym m)
unfolding note_keys
get-note_keys i [] sym m h = refl
get-note_keys i (key ∷ keys) sym m h =
    get-note_keys (suc i) keys sym (note_key i key m) h
    ∙ ap (owner_of sym (suc i) keys) (get-note_key i key sym m h)

next-both : (sym i : ℕ) (key : Key) → next sym i key (some none) ≡ some none
unfolding next
next-both sym i key = ground arith

next-lowest :
    (sym i j : ℕ) (key : Key)
    → (next sym i key (some (some j)) ≡ some none) × (has sym key && at_both sym key ≡ true)
      ⊎ (next sym i key (some (some j)) ≡ some (some j))
unfolding next
next-lowest sym i j key = ground arith

-- A keysym once seen at both levels stays so; one that has a lowest key keeps it, unless a key at both
-- levels follows.
owner_of-both : (sym i : ℕ) (keys : List Key) → owner_of sym i keys (some none) ≡ some none
owner_of-both sym i [] = refl
owner_of-both sym i (key ∷ keys) =
    ap (owner_of sym (suc i) keys) (next-both sym i key) ∙ owner_of-both sym (suc i) keys

owner_of-lowest :
    (sym i j : ℕ) (keys : List Key)
    → (owner_of sym i keys (some (some j)) ≡ some none) × (any (at_both sym) keys ≡ true)
      ⊎ (owner_of sym i keys (some (some j)) ≡ some (some j))
owner_of-lowest sym i j [] = inr refl
owner_of-lowest sym i j (key ∷ keys) = elim (next-lowest sym i j key) [
  | inl (both, twice) ↦
      inl (ap (owner_of sym (suc i) keys) both ∙ owner_of-both sym (suc i) keys, ground arith)
  | inr stays ↦ elim (owner_of-lowest sym (suc i) j keys) [
    | inl (both, twice) ↦ inl (ap (owner_of sym (suc i) keys) stays ∙ both, ground arith)
    | inr lowest ↦ inr (ap (owner_of sym (suc i) keys) stays ∙ lowest)
  ]
]

-- The keys of a keysym that the second loop leaves it on.
abbrev kept_at : ℕ → Option (Option ℕ) → ℕ → List Key → Bool
kept_at sym o i [] = false
kept_at sym o i (key ∷ keys) = has sym key && keeps i o || kept_at sym o (suc i) keys

blank_lem :
    (i : ℕ) (m : Owners) (sym s : ℕ)
    → sym ≢ 0
    → (blank i m s == sym) ≡ (s == sym && keeps i (Assoc.get sym m))
blank_lem i m sym s h = elim (Bool-cases (s == sym)) [
  | inl same ↦ let e : s ≡ sym = ground arith in rw e (ground (arith, ==_refl sym))
  | inr other ↦ ground arith
]

has-blank_key :
    (i : ℕ) (m : Owners) (sym : ℕ) (key : Key)
    → sym ≢ 0
    → has sym (blank_key i m key) ≡ (has sym key && keeps i (Assoc.get sym m))
has-blank_key i m sym key h =
    rw
      (
        blank_lem i m sym key.base h,
        blank_lem i m sym key.shift h,
        blank_lem i m sym key.level3 h,
        blank_lem i m sym key.shift3 h,
      )
      (ground arith)

any-blank_keys :
    (i : ℕ) (m : Owners) (sym : ℕ) (keys : List Key)
    → sym ≢ 0
    → any (has sym) (blank_keys i m keys) ≡ kept_at sym (Assoc.get sym m) i keys
unfolding blank_keys
any-blank_keys i m sym [] h = refl
any-blank_keys i m sym (key ∷ keys) h =
    rw (has-blank_key i m sym key h, any-blank_keys (suc i) m sym keys h) refl

kept_at-both : (sym i : ℕ) (keys : List Key) → kept_at sym (some none) i keys ≡ any (has sym) keys
kept_at-both sym i [] = refl
kept_at-both sym i (key ∷ keys) = ground (arith, kept_at-both sym (suc i) keys)

-- At the first key that has a keysym.
next-none :
    (sym i : ℕ) (key : Key)
    → (next sym i key none ≡ none) × (has sym key ≡ false)
      ⊎ (next sym i key none ≡ some none) × (at_both sym key ≡ true)
      ⊎ (next sym i key none ≡ some (some i)) × (has sym key ≡ true)
unfolding next
next-none sym i key = ground arith

kept_at-later :
    (sym i : ℕ) (key : Key) (keys : List Key) (o : Option (Option ℕ))
    → has sym key ≡ false
    → kept_at sym o (suc i) keys ≡ any (has sym) keys
    → kept_at sym o i (key ∷ keys) ≡ any (has sym) (key ∷ keys)
kept_at-later sym i key keys o h later = rw (h, later) refl

kept_at-first :
    (sym i : ℕ) (key : Key) (keys : List Key)
    → has sym key ≡ true
    → kept_at sym (some (some i)) i (key ∷ keys) ≡ true
kept_at-first sym i key keys h = ground (arith, ==_refl i)

-- The lowest key of a keysym has it, and stands there.
reachable :
    (sym i : ℕ) (keys : List Key)
    → kept_at sym (owner_of sym i keys none) i keys ≡ any (has sym) keys
reachable sym i [] = refl
reachable sym i (key ∷ keys) = elim (next-none sym i key) [
  | inl (fresh, gone) ↦
      let own : owner_of sym i (key ∷ keys) none ≡ owner_of sym (suc i) keys none =
        ap (owner_of sym (suc i) keys) fresh in
      ap (λ o. kept_at sym o i (key ∷ keys)) own
      ∙ kept_at-later sym i key keys (owner_of sym (suc i) keys none) gone
          (reachable sym (suc i) keys)
  | inr (inl (both, twice)) ↦
      let own : owner_of sym i (key ∷ keys) none ≡ some none =
        ap (owner_of sym (suc i) keys) both ∙ owner_of-both sym (suc i) keys in
      ap (λ o. kept_at sym o i (key ∷ keys)) own ∙ kept_at-both sym i (key ∷ keys)
  | inr (inr (lowest, here)) ↦ elim (owner_of-lowest sym (suc i) i keys) [
    | inl (both, twice) ↦
        let own : owner_of sym i (key ∷ keys) none ≡ some none =
          ap (owner_of sym (suc i) keys) lowest ∙ both in
        ap (λ o. kept_at sym o i (key ∷ keys)) own ∙ kept_at-both sym i (key ∷ keys)
    | inr stays ↦
        let own : owner_of sym i (key ∷ keys) none ≡ some (some i) =
          ap (owner_of sym (suc i) keys) lowest ∙ stays in
        ap (λ o. kept_at sym o i (key ∷ keys)) own
        ∙ kept_at-first sym i key keys here
        ∙ ground arith
  ]
]

-- How many keys a keysym with a lowest key is left on.
tally-blank_keys-le :
    (i j : ℕ) (m : Owners) (sym : ℕ) (keys : List Key)
    → sym ≢ 0
    → Assoc.get sym m ≡ some (some j)
    → tally (has sym) (blank_keys i m keys) ≤ (if leb i j then 1 else 0)
unfolding blank_keys
tally-blank_keys-le i j m sym [] h e = ground arith
tally-blank_keys-le i j m sym (key ∷ keys) h e =
    let later = tally-blank_keys-le (suc i) j m sym keys h e in
    rw (has-blank_key i m sym key h, e) (ground (arith, later))

owner_cases :
    (sym i : ℕ) (keys : List Key)
    → (any (has sym) keys ≡ false)
      ⊎ (owner_of sym i keys none ≡ some none) × (any (at_both sym) keys ≡ true)
      ⊎ (j : ℕ) × (owner_of sym i keys none ≡ some (some j))
owner_cases sym i [] = inl refl
owner_cases sym i (key ∷ keys) = elim (next-none sym i key) [
  | inl (fresh, gone) ↦ rw fresh (elim (owner_cases sym (suc i) keys) [
    | inl nowhere ↦ inl (ground arith)
    | inr (inl (both, twice)) ↦ inr (inl (both, ground arith))
    | inr (inr (j, lowest)) ↦ inr (inr (j, lowest))
  ])
  | inr (inl (both, twice)) ↦ rw both (inr (inl (owner_of-both sym (suc i) keys, ground arith)))
  | inr (inr (lowest, here)) ↦ rw lowest (elim (owner_of-lowest sym (suc i) i keys) [
    | inl (both, twice) ↦ inr (inl (both, ground arith))
    | inr stays ↦ inr (inr (i, stays))
  ])
]

tally_none : (p : Key → Bool) (keys : List Key) → any p keys ≡ false → tally p keys ≡ 0
tally_none p [] h = refl
tally_none p (key ∷ keys) h = ground (arith, tally_none p keys)

-- Each keysym but 0 is as reachable after the blanking as it was before, and one that no key gives
-- at both Shift levels is left on one key at most.
pub dedup_lem :
    (sym : ℕ) (keys : List Key)
    → sym ≢ 0
    → (any (has sym) (dedup keys) ≡ any (has sym) keys)
      × ((any (at_both sym) keys ≡ true) ⊎ (tally (has sym) (dedup keys) ≤ 1))
unfolding dedup
dedup_lem sym keys h =
    let m = note_keys 0 keys [] in
    let owner = get-note_keys 0 keys sym [] h in
    let kept = any-blank_keys 0 m sym keys h in
    (
      kept ∙ ap (λ o. kept_at sym o 0 keys) owner ∙ reachable sym 0 keys,
      once m owner (owner_cases sym 0 keys),
    )
  where
    once :
        (m : Owners)
        → Assoc.get sym m ≡ owner_of sym 0 keys none
        → (any (has sym) keys ≡ false)
          ⊎ (owner_of sym 0 keys none ≡ some none) × (any (at_both sym) keys ≡ true)
          ⊎ (j : ℕ) × (owner_of sym 0 keys none ≡ some (some j))
        → (any (at_both sym) keys ≡ true) ⊎ (tally (has sym) (blank_keys 0 m keys) ≤ 1)
    once m e (inl nowhere) =
        let gone = tally_none (has sym) (blank_keys 0 m keys) (
          any-blank_keys 0 m sym keys h
          ∙ ap (λ o. kept_at sym o 0 keys) e
          ∙ reachable sym 0 keys
          ∙ nowhere) in
        inr (ground (arith, gone))
    once m e (inr (inl (both, twice))) = inl twice
    once m e (inr (inr (j, lowest))) =
        let le = tally-blank_keys-le 0 j m sym keys h (e ∙ lowest) in inr (ground arith)
