-- ===== src/X11/Targets.antt =====
-- bridge/x11/targets.rs: the targets of a selection whose data is on the Wayland side. A text is its bytes, and
-- whether bytes are UTF-8 is asked of `is_utf8`, for `str::from_utf8`. `lossy` is `String::from_utf8_lossy`.
pub mod Advertised
use xwlrvnc.Base.{
  ℕ, Bool, true, false, not, ◌&&◌, Option, none, some, List, [], ◌∷◌, ◌++◌, map, if◌then◌else◌,
  is_some, ltb, ◌==◌, any, bytes_eq, contains, find,
}

-- `UTF8_STRING`.
abbrev pub utf8_string : List ℕ
utf8_string = 85 ∷ 84 ∷ 70 ∷ 56 ∷ 95 ∷ 83 ∷ 84 ∷ 82 ∷ 73 ∷ 78 ∷ 71 ∷ []

-- `TEXT`.
abbrev pub text_name : List ℕ
text_name = 84 ∷ 69 ∷ 88 ∷ 84 ∷ []

-- `STRING`.
abbrev pub string_name : List ℕ
string_name = 83 ∷ 84 ∷ 82 ∷ 73 ∷ 78 ∷ 71 ∷ []

-- `text/plain;charset=utf-8`.
abbrev pub plain_utf8 : List ℕ
plain_utf8 =
    116 ∷ 101 ∷ 120 ∷ 116 ∷ 47 ∷ 112 ∷ 108 ∷ 97 ∷ 105 ∷ 110 ∷ 59 ∷ 99 ∷ 104 ∷ 97 ∷ 114 ∷ 115 ∷ 101
    ∷ 116 ∷ 61 ∷ 117 ∷ 116 ∷ 102 ∷ 45 ∷ 56 ∷ []

-- `text/plain`.
abbrev pub plain : List ℕ
plain = 116 ∷ 101 ∷ 120 ∷ 116 ∷ 47 ∷ 112 ∷ 108 ∷ 97 ∷ 105 ∷ 110 ∷ []

-- `text/`.
abbrev pub text_prefix : List ℕ
text_prefix = 116 ∷ 101 ∷ 120 ∷ 116 ∷ 47 ∷ []

pub record TextTarget : Type 0 where
  pub name : List ℕ
  pub type_ : List ℕ
  pub mimes : List (List ℕ)
  pub latin1 : Bool

abbrev pub utf8_mimes : List (List ℕ)
utf8_mimes = plain_utf8 ∷ utf8_string ∷ plain ∷ text_name ∷ []

abbrev pub text_targets : List TextTarget
text_targets =
    record { name = utf8_string; type_ = utf8_string; mimes = utf8_mimes; latin1 = false }
    ∷ record { name = text_name; type_ = utf8_string; mimes = utf8_mimes; latin1 = false }
    ∷ record { name = string_name; type_ = string_name; mimes = utf8_mimes; latin1 = true }
    ∷ []

pub record Conversion : Type 0 where
  pub mime : List ℕ
  pub type_ : Option (List ℕ)
  pub latin1 : Bool

-- `mimes.iter().any(|x| x == m)`.
abbrev pub offers : List (List ℕ) → List ℕ → Bool
offers mimes m = any (bytes_eq m) mimes

abbrev pub starts_with : List ℕ → List ℕ → Bool
starts_with [] bytes = true
starts_with (p ∷ ps) [] = false
starts_with (p ∷ ps) (b ∷ bs) = p == b && starts_with ps bs

abbrev pub or_else {ℓ} : {A : Type ℓ} → Option A → Option A → Option A
or_else none later = later
or_else (some a) later = some a

-- The mime type that stands in for a text target.
abbrev pub text_mime : TextTarget → List (List ℕ) → Option (List ℕ)
text_mime t mimes = or_else (find (offers mimes) t.mimes) (find (starts_with text_prefix) mimes)

abbrev pub as_text : TextTarget → Option (List ℕ) → Option Conversion
as_text t none = none
as_text t (some mime) = some (record { mime = mime; type_ = some t.type_; latin1 = t.latin1 })

abbrev pub slash : ℕ
slash = 47

module _ (is_utf8 : List ℕ → Bool) where
  abbrev pub as_raw : List ℕ → List (List ℕ) → Option Conversion
  as_raw target mimes =
      if contains target slash && (is_utf8 target && offers mimes target)
      then some (record { mime = target; type_ = none; latin1 = false })
      else none

  unfoldable pub resolve : List ℕ → List (List ℕ) → Option Conversion
  resolve target mimes = elim (find (λ (t : TextTarget). bytes_eq t.name target) text_targets) [
    | some t ↦ as_text t (text_mime t mimes)
    | none ↦ as_raw target mimes
  ]

  -- The first loop of `advertised`.
  abbrev pub text_names : List TextTarget → List (List ℕ) → List (List ℕ)
  text_names [] mimes = []
  text_names (t ∷ ts) mimes =
      let later = text_names ts mimes in
      if is_some (resolve t.name mimes) then t.name ∷ later else later

  -- The second.
  abbrev pub add_raw : List (List ℕ) → List (List ℕ) → List (List ℕ)
  add_raw out [] = out
  add_raw out (m ∷ ms) =
      add_raw (if contains m slash && not (offers out m) then out ++ (m ∷ []) else out) ms

  unfoldable pub advertised : List (List ℕ) → List (List ℕ)
  advertised mimes = add_raw (text_names text_targets mimes) mimes

-- `?` for what is not Latin-1.
abbrev pub latin1_char : ℕ → ℕ
latin1_char c = if ltb c 256 then c else 63

unfoldable pub to_latin1 : (lossy : List ℕ → List ℕ) → List ℕ → List ℕ
to_latin1 lossy utf8 = map latin1_char (lossy utf8)
