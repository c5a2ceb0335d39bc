-- ===== src/X11/Selection/Fetches.antt =====
-- A fetch is never forgotten: each one begun is outstanding until it is answered, displaced or expired.
use xwlrvnc.Base.{
  ℕ, ◌+◌, ◌≤◌, ◌<◌, ◌≡◌, ◌⊎◌, inl, inr, refl, Bool, true, false, not, ◌==◌, List, [], ◌∷◌, ◌++◌,
  map, none, some, arith, length, length-append, retain, tally, tally-append, tally-retain, All,
  retain_passes, Bool-cases, ap,
}
use xwlrvnc.Base.Assoc
use xwlrvnc.Base.Assoc.{IsMap, remove_absent}
use xwlrvnc.X11.Selection.{
  Fetch, IncrRecv, Selection, max_fetches, overflow, begin_fetch, fetch_of, expired, timed_out,
  take_first, take_fetch, answers,
}

abbrev pub receiving : List (ℕ × IncrRecv) → List Fetch
receiving = map (λ (e : ℕ × IncrRecv). e.1.fetch)

-- The requests not yet resolved.
abbrev pub outstanding : Selection → List Fetch
outstanding s = s.fetches ++ receiving s.incr

tally-overflow :
    (p : Fetch → Bool) (fs : List Fetch)
    → tally p (overflow fs).0 + tally p (overflow fs).1 ≡ tally p fs
unfolding overflow
tally-overflow p [] = refl
tally-overflow p (f ∷ fs) = ground (arith, tally-overflow p fs)

length-overflow : (fs : List Fetch) → length (overflow fs).1 < max_fetches
unfolding overflow
length-overflow [] = omega arith
length-overflow (f ∷ fs) = ground (arith, length-overflow fs)

tally-remove :
    (p : Fetch → Bool) (k : ℕ) (m : List (ℕ × IncrRecv))
    → IsMap m
    → tally p (fetch_of (Assoc.get k m)) + tally p (receiving (Assoc.remove k m))
      ≡ tally p (receiving m)
tally-remove p k [] h = refl
tally-remove p k ((j, i) ∷ m) h = ground (arith, tally-remove p k m h.1, remove_absent k m)

-- Beginning a fetch hands back each request that it displaces: the new fetch and those outstanding
-- before are, as a multiset, those handed back and those outstanding afterwards. At most thirty-two
-- unanswered requests are kept.
pub begin_fetch_conserves :
    (p : Fetch → Bool) (fetch : Fetch) (s : Selection)
    → IsMap s.incr
    → let (t, displaced) = begin_fetch fetch s in
      (tally p displaced + tally p (outstanding t) ≡ tally p (fetch ∷ []) + tally p (outstanding s))
      × (length t.fetches ≤ max_fetches)
unfolding begin_fetch
begin_fetch_conserves p fetch s h =
    let same = retain (λ f. f.property == fetch.property) s.fetches in
    let others = retain (λ f. not (f.property == fetch.property)) s.fetches in
    let (pushed, kept) = overflow others in
    let chunked = fetch_of (Assoc.get fetch.property s.incr) in
    omega (
      arith,
      tally-append p chunked (same ++ pushed),
      tally-append p same pushed,
      tally-append p (kept ++ (fetch ∷ [])) (receiving (Assoc.remove fetch.property s.incr)),
      tally-append p kept (fetch ∷ []),
      tally-append p s.fetches (receiving s.incr),
      tally-retain p (λ f. f.property == fetch.property) s.fetches,
      tally-overflow p others,
      tally-remove p fetch.property s.incr h,
      length-overflow others,
      length-append kept (fetch ∷ []),
    )

tally-expire :
    (p : Fetch → Bool) (q : ℕ × IncrRecv → Bool) (m : List (ℕ × IncrRecv))
    → tally p (receiving (retain q m)) + tally p (receiving (retain (λ e. not (q e)) m))
      ≡ tally p (receiving m)
tally-expire p q [] = refl
tally-expire p q (e ∷ m) = ground (arith, tally-expire p q m)

-- Those expired and those left are, as a multiset, the requests outstanding before; no request left has
-- run out of time, and no chunked receive left has gone that long without a chunk.
pub expired_conserves :
    (p : Fetch → Bool) (now : ℕ) (s : Selection)
    → let (t, late) = expired now s in
      (tally p late + tally p (outstanding t) ≡ tally p (outstanding s))
      × All (λ f. not (timed_out now f.since) ≡ true) t.fetches
      × All (λ (e : ℕ × IncrRecv). not (timed_out now e.1.progress_at) ≡ true) t.incr
unfolding expired
expired_conserves p now s =
    let q = λ (e : ℕ × IncrRecv). timed_out now e.1.progress_at in
    let r = λ (f : Fetch). timed_out now f.since in
    (
      omega (
        arith,
        tally-append p (retain r s.fetches) (receiving (retain q s.incr)),
        tally-append p (retain (λ f. not (r f)) s.fetches)
            (receiving (retain (λ e. not (q e)) s.incr)),
        tally-append p s.fetches (receiving s.incr),
        tally-retain p r s.fetches,
        tally-expire p q s.incr,
      ),
      retain_passes (λ f. not (r f)) s.fetches,
      retain_passes (λ e. not (q e)) s.incr,
    )

-- The first element that passes, with those before it, which do not, and those behind it.
abbrev pub SplitsAt : (Fetch → Bool) → List Fetch → Fetch → List Fetch → Type 0
SplitsAt p fs f others =
    (before : List Fetch) × (after : List Fetch) × (fs ≡ before ++ (f ∷ after))
    × (others ≡ before ++ after)
    × (p f ≡ true)
    × All (λ g. p g ≡ false) before

take_first_cases :
    (p : Fetch → Bool) (fs : List Fetch)
    → ((take_first p fs ≡ none) × All (λ g. p g ≡ false) fs)
      ⊎ ((f : Fetch) × (others : List Fetch) × (take_first p fs ≡ some (f, others))
          × SplitsAt p fs f others)
unfolding take_first
take_first_cases p [] = inl (refl, tt)
take_first_cases p (f ∷ fs) = elim (Bool-cases (p f)) [
  | inl hit ↦ inr (f, fs, rw hit, ([], fs, refl, refl, hit, tt))
  | inr miss ↦ elim (take_first_cases p fs) [
    | inl (e, none_before) ↦ inl (rw (miss, e), (miss, none_before))
    | inr (g, others, e, (before, after, split, kept, hit, none_before)) ↦ inr (
      g,
      f ∷ others,
      rw (miss, e),
      (f ∷ before, after, ap (◌∷◌ f) split, ap (◌∷◌ f) kept, hit, (miss, none_before)),
    )
  ]
]

-- A `SelectionNotify` takes the oldest request that it answers, by its selection and property, or by its
-- selection alone if it is a refusal, and leaves every other in its place; it takes none exactly if it answers
-- none.
pub take_fetch_lem :
    (selection property : ℕ) (s : Selection)
    → ((take_fetch selection property s ≡ none)
        × All (λ g. answers selection property g ≡ false) s.fetches)
      ⊎ ((f : Fetch) × (t : Selection) × (take_fetch selection property s ≡ some (f, t))
          × SplitsAt (answers selection property) s.fetches f t.fetches
          × (t ≡ record s { fetches = t.fetches }))
unfolding take_fetch
take_fetch_lem selection property s =
    elim (take_first_cases (answers selection property) s.fetches) [
      | inl (e, unanswered) ↦ inl (rw (e, take_fetch), unanswered)
      | inr (f, others, e, split) ↦
          inr (f, record s { fetches = others }, rw (e, take_fetch), split, refl)
    ]
