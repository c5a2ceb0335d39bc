-- ===== src/X11/Selection/Deadlines.antt =====
-- The deadline that the connection thread sleeps to.
use xwlrvnc.X11.Selection.{
  fetch_timeout, starts, Selection, expired, Fetch, IncrRecv, next_deadline, timed_out, minimum,
}
use xwlrvnc.Base.{
  ◌++◌, ◌+◌, ◌&&◌, ◌||◌, ltb, ◌⊎◌, not, map, retain, Bool, is_empty, ℕ, ◌≡◌, inl, inr, refl, List,
  [], ◌∷◌, none, some, arith, any, Option-cases,
}

minimum-none : (ts : List ℕ) → minimum ts ≡ none → ts ≡ []
minimum-none [] h = refl
minimum-none (t ∷ ts) h = ground arith

-- Before the least start's time is out nothing has timed out; from then on something has.
minimum_times :
    (now : ℕ) (ts : List ℕ) (t : ℕ) → minimum ts ≡ some t → any (timed_out now) ts ≡ timed_out now t
minimum_times now [] t h = cc
minimum_times now (u ∷ ts) t h = elim (Option-cases (minimum ts)) [
  | inl e ↦ let nil = minimum-none ts e in ground arith
  | inr (v, e) ↦ ground (arith, minimum_times now ts v e)
]

any-append : (p : ℕ → Bool) (xs ys : List ℕ) → any p (xs ++ ys) ≡ any p xs || any p ys
any-append p [] ys = refl
any-append p (x ∷ xs) ys = ground (arith, any-append p xs ys)

is_empty-append {ℓ} :
    {A : Type ℓ} (xs ys : List A) → is_empty (xs ++ ys) ≡ is_empty xs && is_empty ys
is_empty-append [] ys = refl
is_empty-append (x ∷ xs) ys = refl

any_since :
    (now : ℕ) (fs : List Fetch)
    → is_empty (retain (λ f. timed_out now f.since) fs)
      ≡ not (any (timed_out now) (map (λ (f : Fetch). f.since) fs))
any_since now [] = refl
any_since now (f ∷ fs) = ground (arith, any_since now fs)

any_progress :
    (now : ℕ) (m : List (ℕ × IncrRecv))
    → is_empty (
        map
          (λ (e : ℕ × IncrRecv). e.1.fetch)
          (retain (λ (e : ℕ × IncrRecv). timed_out now e.1.progress_at) m))
      ≡ not (any (timed_out now) (map (λ (e : ℕ × IncrRecv). e.1.progress_at) m))
any_progress now [] = refl
any_progress now (e ∷ m) = ground (arith, any_progress now m)

starts_nil :
    (fs : List Fetch) (m : List (ℕ × IncrRecv))
    → map (λ (f : Fetch). f.since) fs ++ map (λ (e : ℕ × IncrRecv). e.1.progress_at) m ≡ []
    → (fs ≡ []) × (m ≡ [])
starts_nil [] [] h = (refl, refl)
starts_nil [] (e ∷ m) h = cc
starts_nil (f ∷ fs) m h = cc

-- No deadline is given exactly if nothing is outstanding, and then nothing expires. A deadline given is exact: at any
-- moment something expires if and only if the deadline has come.
pub next_deadline_exact :
    (now : ℕ) (s : Selection)
    → ((next_deadline s ≡ none) × (s.fetches ≡ []) × (s.incr ≡ []))
      ⊎ ((deadline : ℕ) × (next_deadline s ≡ some deadline)
          × (is_empty (expired now s).1 ≡ ltb now deadline))
unfolding next_deadline expired
next_deadline_exact now s = elim (Option-cases (minimum (starts s))) [
  | inl e ↦
      let nil = minimum-none (starts s) e in
      inl (ground arith, (starts_nil s.fetches s.incr nil).0, (starts_nil s.fetches s.incr nil).1)
  | inr (t, e) ↦ inr (
    t + fetch_timeout,
    ground arith,
    ground (
      arith,
      minimum_times now (starts s) t e,
      any-append (timed_out now) (map (λ (f : Fetch). f.since) s.fetches)
          (map (λ (e : ℕ × IncrRecv). e.1.progress_at) s.incr),
      is_empty-append (retain (λ f. timed_out now f.since) s.fetches) (
          map (λ (e : ℕ × IncrRecv). e.1.fetch)
            (retain (λ (e : ℕ × IncrRecv). timed_out now e.1.progress_at) s.incr)),
      any_since now s.fetches,
      any_progress now s.incr,
    ),
  )
]
