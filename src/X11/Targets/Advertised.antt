-- ===== src/X11/Targets/Advertised.antt =====
-- The targets that are listed are those that convert.
use xwlrvnc.Base.{
  ℕ, ◌+◌, ◌≡◌, refl, ◌∙◌, inl, inr, Bool, true, false, not, ◌&&◌, ◌||◌, Option, none, some, List,
  [], ◌∷◌, ◌++◌, arith, Bool-cases, Option-cases, if◌then◌else◌, is_some, All, bytes_eq,
  bytes_eq_refl, contains, eq_of_bytes, find, find_passes, tally, tally-append,
}
use xwlrvnc.X11.Targets.{
  Conversion, TextTarget, add_raw, advertised, as_raw, as_text, offers, resolve, slash, starts_with,
  string_name, text_mime, text_name, text_names, text_prefix, text_targets, utf8_string,
}

bytes_eq_sym : (xs ys : List ℕ) → bytes_eq xs ys ≡ bytes_eq ys xs
bytes_eq_sym [] [] = refl
bytes_eq_sym [] (y ∷ ys) = refl
bytes_eq_sym (x ∷ xs) [] = refl
bytes_eq_sym (x ∷ xs) (y ∷ ys) = ground (arith, bytes_eq_sym xs ys)

offers-append :
    (out : List (List ℕ)) (m t : List ℕ)
    → offers (out ++ (m ∷ [])) t ≡ (offers out t || bytes_eq t m)
offers-append [] m t = ground arith
offers-append (o ∷ out) m t = ground (arith, offers-append out m t)

-- What the second loop adds of a target.
abbrev is_new : List (List ℕ) → List (List ℕ) → List ℕ → Bool
is_new out ms t = contains t slash && (offers ms t && not (offers out t))

tally-add_raw :
    (is_utf8 : List ℕ → Bool) (ms out : List (List ℕ)) (t : List ℕ)
    → tally (bytes_eq t) (add_raw is_utf8 out ms)
      ≡ tally (bytes_eq t) out + (if is_new out ms t then 1 else 0)
tally-add_raw is_utf8 [] out t = ground arith
tally-add_raw is_utf8 (m ∷ ms) out t =
    let out2 = if contains m slash && not (offers out m) then out ++ (m ∷ []) else out in
    tally-add_raw is_utf8 ms out2 t ∙ added
  where
    added :
        let out2 = if contains m slash && not (offers out m) then out ++ (m ∷ []) else out in
        tally (bytes_eq t) out2 + (if is_new out2 ms t then 1 else 0)
        ≡ tally (bytes_eq t) out + (if is_new out (m ∷ ms) t then 1 else 0)
    added = elim (Bool-cases (bytes_eq t m)) [
      | inl same ↦
          let e : t ≡ m = eq_of_bytes t m same in
          rw e (
            ground (
              arith,
              bytes_eq_refl m,
              tally-append (bytes_eq m) out (m ∷ []),
              offers-append out m m,
            ))
      | inr other ↦ ground (arith, tally-append (bytes_eq t) out (m ∷ []), offers-append out m t)
    ]

is_utf8_offered :
    (is_utf8 : List ℕ → Bool) (mimes : List (List ℕ)) (t : List ℕ)
    → All (λ m. is_utf8 m ≡ true) mimes
    → offers mimes t ≡ true
    → is_utf8 t ≡ true
is_utf8_offered is_utf8 [] t h o = cc
is_utf8_offered is_utf8 (m ∷ mimes) t h o = elim (Bool-cases (bytes_eq t m)) [
  | inl same ↦ rw (eq_of_bytes t m same) h.0
  | inr other ↦ is_utf8_offered is_utf8 mimes t h.1 (ground arith)
]

raw_lem :
    (is_utf8 : List ℕ → Bool) (mimes : List (List ℕ)) (t : List ℕ)
    → All (λ m. is_utf8 m ≡ true) mimes
    → is_some (as_raw is_utf8 t mimes) ≡ (contains t slash && offers mimes t)
raw_lem is_utf8 mimes t h = elim (Bool-cases (offers mimes t)) [
  | inl there ↦ let u = is_utf8_offered is_utf8 mimes t h there in ground arith
  | inr gone ↦ ground arith
]

text_names-others :
    (is_utf8 : List ℕ → Bool) (ts : List TextTarget) (mimes : List (List ℕ)) (t : List ℕ)
    → All (λ (n : TextTarget). bytes_eq n.name t ≡ false) ts
    → (tally (bytes_eq t) (text_names is_utf8 ts mimes) ≡ 0)
      × (offers (text_names is_utf8 ts mimes) t ≡ false)
text_names-others is_utf8 [] mimes t h = (refl, refl)
text_names-others is_utf8 (n ∷ ts) mimes t h =
    ground (arith, text_names-others is_utf8 ts mimes t h.1, bytes_eq_sym n.name t)

-- The targets that are listed for the mime types that a selection offers are exactly those that convert, each once: of
-- any bytes, the number of times they are listed is 1 if `resolve` accepts them, else 0. The mime types are UTF-8,
-- as a `String` is.
pub advertised_lem :
    (is_utf8 : List ℕ → Bool) (mimes : List (List ℕ)) (t : List ℕ)
    → All (λ m. is_utf8 m ≡ true) mimes
    → tally (bytes_eq t) (advertised is_utf8 mimes)
      ≡ (if is_some (resolve is_utf8 t mimes) then 1 else 0)
unfolding advertised resolve
advertised_lem is_utf8 mimes t h =
    let out = text_names is_utf8 text_targets mimes in
    tally-add_raw is_utf8 mimes out t ∙ elim (Bool-cases (bytes_eq utf8_string t)) [
      | inl first ↦ rw⁻¹ (eq_of_bytes utf8_string t first) (ground arith)
      | inr a ↦ elim (Bool-cases (bytes_eq text_name t)) [
        | inl second ↦ rw⁻¹ (eq_of_bytes text_name t second) (ground arith)
        | inr b ↦ elim (Bool-cases (bytes_eq string_name t)) [
          | inl third ↦ rw⁻¹ (eq_of_bytes string_name t third) (ground arith)
          | inr c ↦
              let none_of_it = text_names-others is_utf8 text_targets mimes t (a, (b, (c, tt))) in
              rw (none_of_it.0, none_of_it.1, a, b, c, raw_lem is_utf8 mimes t h) (ground arith)
        ]
      ]
    ]

offers_found :
    (p : List ℕ → Bool) (mimes : List (List ℕ)) (m : List ℕ)
    → find p mimes ≡ some m
    → offers mimes m ≡ true
offers_found p [] m h = cc
offers_found p (x ∷ mimes) m h = elim (Bool-cases (p x)) [
  | inl here ↦ let e : x ≡ m = ground arith in rw e (ground (arith, bytes_eq_refl m))
  | inr later ↦ ground (arith, offers_found p mimes m)
]

text_mime-offers :
    (t : TextTarget) (mimes : List (List ℕ)) (m : List ℕ)
    → text_mime t mimes ≡ some m
    → offers mimes m ≡ true
text_mime-offers t mimes m h = elim (Option-cases (find (offers mimes) t.mimes)) [
  | inl absent ↦ offers_found (starts_with text_prefix) mimes m (ground arith)
  | inr (n, found) ↦
      let passes = find_passes (offers mimes) t.mimes n found in
      let same : n ≡ m = ground arith in rw⁻¹ same passes
]

-- A conversion, of an offered type and as `target` wants it.
abbrev Serves : List (List ℕ) → Option Conversion → Type 0
Serves mimes none = Unit
Serves mimes (some c) = offers mimes c.mime ≡ true

as_text-Serves :
    (t : TextTarget) (mimes : List (List ℕ)) (o : Option (List ℕ))
    → text_mime t mimes ≡ o
    → Serves mimes (as_text t o)
as_text-Serves t mimes none h = tt
as_text-Serves t mimes (some m) h = text_mime-offers t mimes m h

as_raw-Serves :
    (is_utf8 : List ℕ → Bool) (target : List ℕ) (mimes : List (List ℕ))
    → Serves mimes (as_raw is_utf8 target mimes)
as_raw-Serves is_utf8 target mimes =
    elim (Bool-cases (contains target slash && (is_utf8 target && offers mimes target))) [
      | inl there ↦ rw there (ground arith)
      | inr gone ↦ rw gone tt
    ]

resolve-Serves :
    (is_utf8 : List ℕ → Bool) (target : List ℕ) (mimes : List (List ℕ))
    → Serves mimes (resolve is_utf8 target mimes)
unfolding resolve
resolve-Serves is_utf8 target mimes =
    elim (Option-cases (find (λ (t : TextTarget). bytes_eq t.name target) text_targets)) [
      | inl other ↦ rw other (as_raw-Serves is_utf8 target mimes)
      | inr (t, found) ↦ rw found (as_text-Serves t mimes (text_mime t mimes) refl)
    ]

-- A conversion asks the Wayland side for a mime type that the selection offers.
pub resolve-offers :
    (is_utf8 : List ℕ → Bool) (target : List ℕ) (mimes : List (List ℕ)) (c : Conversion)
    → resolve is_utf8 target mimes ≡ some c
    → offers mimes c.mime ≡ true
resolve-offers is_utf8 target mimes c h =
    let serves = resolve-Serves is_utf8 target mimes in rw h at serves
