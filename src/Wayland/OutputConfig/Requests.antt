-- ===== src/Wayland/OutputConfig/Requests.antt =====
-- What a configuration asks of the heads.
use xwlrvnc.Base.{
  ℕ, ◌≡◌, refl, ◌⊎◌, inl, inr, Bool, true, false, not, ◌||◌, Option, none, some, List, [], ◌∷◌,
  arith, Bool-cases, Option-cases, if◌then◌else◌, ◌==◌, All, All-imp, retain, set,
}
use xwlrvnc.Wayland.OutputConfig.{
  Active, Attempt, Head, HeadRequest, Mode, advertised, at_least, best_mode, better, configure,
  custom, disable_head, enable_head, has_size, mode_request, set_custom_mode, set_mode,
}
use xwlrvnc.Base.Int.{ℤ, ◌≤ℤ◌}

abbrev pub head_of : HeadRequest → ℕ
head_of (disable_head h) = h
head_of (enable_head h) = h
head_of (set_mode h m) = h
head_of (set_custom_mode h w k r) = h

abbrev pub is_switch : HeadRequest → Bool
is_switch (disable_head h) = true
is_switch (enable_head h) = true
is_switch _ = false

abbrev pub head_proxies : List Head → List ℕ
head_proxies [] = []
head_proxies (h ∷ hs) = h.proxy ∷ head_proxies hs

-- The heads that are switched on or off, in order, and those whose mode is set.
abbrev pub switched : List HeadRequest → List ℕ
switched [] = []
switched (r ∷ rs) = let later = switched rs in if is_switch r then head_of r ∷ later else later

abbrev pub moded : List HeadRequest → List ℕ
moded [] = []
moded (r ∷ rs) = let later = moded rs in if is_switch r then later else head_of r ∷ later

abbrev pub asks_mode : HeadRequest → Bool
asks_mode r = not (is_switch r)

-- What the requests make of the heads that are on, those of `a` among them.
abbrev pub stays_on : ℕ → Head → Bool
stays_on head h = h.proxy == head || h.enabled

abbrev pub wanted : ℕ → List Head → List HeadRequest
wanted head [] = []
wanted head (h ∷ hs) =
    (if stays_on head h then enable_head h.proxy else disable_head h.proxy) ∷ wanted head hs

mode_request_lem :
    (head : Head) (w h : ℤ) (attempt : Attempt)
    → let r = mode_request head w h attempt in (is_switch r ≡ false) × (head_of r ≡ head.proxy)
mode_request_lem head w h advertised = elim (Option-cases (best_mode w h head.modes)) [
  | inl nowhere ↦ ground arith
  | inr (m, best) ↦ ground arith
]
mode_request_lem head w h (custom refresh) = (refl, refl)

-- A configuration of the protocol names every head once, in the order the manager announced them. A head stays
-- on or off as it was, but the head of the request, which is on; it alone is given a mode, as often as it
-- is announced.
pub configure_lem :
    (a : Active) (attempt : Attempt) (heads : List Head)
    → let requests = configure a attempt heads in
      (switched requests ≡ head_proxies heads)
      × (retain is_switch requests ≡ wanted a.head heads)
      × (moded requests ≡ retain (λ h. h == a.head) (head_proxies heads))
unfolding configure
configure_lem a attempt [] = (refl, refl, refl)
configure_lem a attempt (head ∷ heads) =
    let later = configure_lem a attempt heads in
    elim (Bool-cases (is_switch (mode_request head a.mode_w a.mode_h attempt))) [
      | inl wrong ↦ ground (arith, mode_request_lem head a.mode_w a.mode_h attempt)
      | inr set ↦ ground (arith, mode_request_lem head a.mode_w a.mode_h attempt)
    ]

at_least_trans : (a b c : Mode) → at_least a b ≡ true → at_least b c ≡ true → at_least a c ≡ true
at_least_trans a b c h k = ground arith

at_least_total : (a b : Mode) → at_least a b ≡ false → at_least b a ≡ true
at_least_total a b h = ground arith

at_least_refl : (a : Mode) → at_least a a ≡ true
at_least_refl a = ground arith

-- By the code's own comparison.
abbrev IsTop : ℤ → ℤ → List Mode → Option Mode → Type 0
IsTop w h ms none = retain (has_size w h) ms ≡ []
IsTop w h ms (some m) =
    (has_size w h m ≡ true) × All (λ n. at_least m n ≡ true) (retain (has_size w h) ms)

best_mode-IsTop : (w h : ℤ) (ms : List Mode) → IsTop w h ms (best_mode w h ms)
best_mode-IsTop w h [] = refl
best_mode-IsTop w h (m ∷ ms) = elim (Bool-cases (has_size w h m)) [
  | inr other ↦ from_other (best_mode w h ms) (best_mode-IsTop w h ms) other
  | inl fits ↦ rw fits (from (best_mode w h ms) (best_mode-IsTop w h ms) fits)
]
  where
    from_other :
        (best : Option Mode)
        → IsTop w h ms best
        → has_size w h m ≡ false
        → IsTop w h (m ∷ ms) (if has_size w h m then better m best else best)
    from_other none b other = ground arith
    from_other (some n) b other = rw (other, other) b

    from :
        (best : Option Mode)
        → IsTop w h ms best
        → has_size w h m ≡ true
        → IsTop w h (m ∷ ms) (better m best)
    from none b fits = rw (fits, b) (refl, (at_least_refl m, tt))
    from (some n) b fits = elim (Bool-cases (at_least n m)) [
      | inl stays ↦ rw (stays, fits) (b.0, (stays, b.1))
      | inr less ↦
          let over = at_least_total n m less in
          rw (less, fits)
            (
              refl,
              (
                at_least_refl m,
                All-imp (λ k. at_least n k ≡ true) (λ k. at_least m k ≡ true)
                    (λ k. at_least_trans m n k over) (retain (has_size w h) ms) b.1,
              ),
            )
    ]

-- The first mode is as good as the second: preferred where the second is not, or equal to it in that with a refresh
-- rate that is no lower.
abbrev pub Outranks : Mode → Mode → Type 0
Outranks m n =
    ((m.preferred ≡ true) × (n.preferred ≡ false))
    ⊎ ((m.preferred ≡ n.preferred) × (n.refresh ≤ℤ m.refresh))

at_least-Outranks : (m n : Mode) → at_least m n ≡ true → Outranks m n
at_least-Outranks m n h = ground arith

-- The best of the modes of a size, or that there is none.
abbrev pub IsBest : ℤ → ℤ → List Mode → Option Mode → Type 0
IsBest w h ms none = retain (has_size w h) ms ≡ []
IsBest w h ms (some m) = (has_size w h m ≡ true) × All (Outranks m) (retain (has_size w h) ms)

top-IsBest :
    (w h : ℤ) (ms : List Mode) (best : Option Mode) → IsTop w h ms best → IsBest w h ms best
top-IsBest w h ms none t = t
top-IsBest w h ms (some m) (fits, t) = (
  fits,
  All-imp (λ n. at_least m n ≡ true) (Outranks m) (at_least-Outranks m) (retain (has_size w h) ms)
      t,
)

-- The mode that is set has the size asked for, and none of that size is better: the preferred modes come
-- before the others, and among those the highest refresh rate. If no mode has the size, none is
-- set.
pub best_mode-IsBest : (w h : ℤ) (ms : List Mode) → IsBest w h ms (best_mode w h ms)
best_mode-IsBest w h ms = top-IsBest w h ms (best_mode w h ms) (best_mode-IsTop w h ms)
