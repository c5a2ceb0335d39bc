-- ===== src/Input/Keymap.antt =====
-- bridge/keymap.rs: the X keyboard mapping of the compositor's keymap. The table is kept a key at a time, as
-- `build` makes it and `dedup` reads it. Of xkbcommon, `Xkb` has the calls that the source makes.
pub mod Dedup
use Prim.Native.Nat.{bit_and, bit_or}
use xwlrvnc.Base.Assoc
use xwlrvnc.Base.{
  ℕ, zero, suc, ◌-◌, ◌*◌, max, sym, Bool, true, false, not, ◌&&◌, ◌||◌, Option, none, some, List,
  [], ◌∷◌, ◌++◌, if◌then◌else◌, ◌==◌, count, get_or, length, rest, set,
}

abbrev pub min_keycode : ℕ
min_keycode = 8

-- The number of keycodes, 8 to 255.
abbrev pub keycodes : ℕ
keycodes = 248

abbrev pub syms_per : ℕ
syms_per = 4

-- The keysyms of a keycode.
pub record Key : Type 0 where
  pub base : ℕ
  pub shift : ℕ
  pub level3 : ℕ
  pub shift3 : ℕ

abbrev pub has : ℕ → Key → Bool
has sym key = key.base == sym || (key.shift == sym || (key.level3 == sym || key.shift3 == sym))

-- Whether the key gives the keysym at both Shift levels.
abbrev pub at_both : ℕ → Key → Bool
at_both sym key = key.base == sym && key.shift == sym

-- A keysym's lowest key, or `none` once seen at both Shift levels of a key.
abbrev pub Owners : Type 0
Owners = List (ℕ × Option ℕ)

-- `entry(sym).or_insert(Some(i))`.
abbrev pub or_insert : ℕ → Option (Option ℕ) → Option ℕ
or_insert i none = some i
or_insert i (some owner) = owner

-- The body of the first inner loop.
abbrev pub note : ℕ → Key → ℕ → Owners → Owners
note i key sym m =
    if sym == 0
    then m
    else Assoc.insert sym (if at_both sym key then none else or_insert i (Assoc.get sym m)) m

abbrev pub note_key : ℕ → Key → Owners → Owners
note_key i key m =
    note i key key.shift3 (note i key key.level3 (note i key key.shift (note i key key.base m)))

unfoldable pub note_keys : ℕ → List Key → Owners → Owners
note_keys i [] m = m
note_keys i (key ∷ keys) m = note_keys (suc i) keys (note_key i key m)

-- `!owner[sym].is_some_and(|lowest| lowest != i)`; the index of a keysym that has no owner would panic.
abbrev pub keeps : ℕ → Option (Option ℕ) → Bool
keeps i (some (some lowest)) = lowest == i
keeps i _ = true

-- The body of the second inner loop.
abbrev pub blank : ℕ → Owners → ℕ → ℕ
blank i m sym = if not (sym == 0) && not (keeps i (Assoc.get sym m)) then 0 else sym

abbrev pub blank_key : ℕ → Owners → Key → Key
blank_key i m key = record {
  base = blank i m key.base;
  shift = blank i m key.shift;
  level3 = blank i m key.level3;
  shift3 = blank i m key.shift3;
}

unfoldable pub blank_keys : ℕ → Owners → List Key → List Key
blank_keys i m [] = []
blank_keys i m (key ∷ keys) = blank_key i m key ∷ blank_keys (suc i) m keys

unfoldable pub dedup : List Key → List Key
dedup keys = blank_keys 0 (note_keys 0 keys []) keys

abbrev pub flat : List Key → List ℕ
flat [] = []
flat (key ∷ keys) = key.base ∷ key.shift ∷ key.level3 ∷ key.shift3 ∷ flat keys

abbrev pub slice_from : List ℕ → ℕ → ℕ → List ℕ
slice_from table start zero = []
slice_from table start (suc n) = get_or table start 0 ∷ slice_from table (suc start) n

-- `-` stops at 0, as `saturating_sub` does.
unfoldable pub mapping_slice : List ℕ → ℕ → ℕ → List ℕ
mapping_slice table first_keycode count =
    slice_from table ((first_keycode - min_keycode) * syms_per) (count * syms_per)

-- xkbcommon, of one compiled keymap. `X` is the state that its calls change. A modifier's mask is 0 if the keymap has none
-- of that name.
pub record Xkb (X : Type 0) : Type 0 where
  pub mask : ℕ → ℕ
  pub update_mask : ℕ → X → X
  pub one_sym : ℕ → X → Option ℕ
  pub has_layout : ℕ → X → Bool
  pub update_key : ℕ → Bool → X → X
  pub mods_effective : X → ℕ

pub record KeyTable : Type 0 where
  pub syms : List ℕ
  pub modmap : List ℕ

-- The X modifiers by their place in `X_MODIFIERS`.
abbrev pub shift_modifier : ℕ
shift_modifier = 0

abbrev pub mod5 : ℕ
mod5 = 7

abbrev pub sym_or_0 : Option ℕ → ℕ
sym_or_0 none = 0
sym_or_0 (some sym) = sym

-- The keys without a level 3 symbol have none there.
abbrev pub without_copies : Key → Key
without_copies key = record key {
  level3 = if key.level3 == key.base then 0 else key.level3;
  shift3 = if key.shift3 == key.shift then 0 else key.shift3;
}

abbrev pub pad : ℕ → List ℕ → List ℕ
pad zero keys = []
pad (suc n) [] = 0 ∷ pad n []
pad (suc n) (key ∷ keys) = key ∷ pad n keys

abbrev pub longest : List (List ℕ) → ℕ
longest [] = 0
longest (keys ∷ rest) = max (length keys) (longest rest)

abbrev pub pad_all : ℕ → List (List ℕ) → List ℕ
pad_all per [] = []
pad_all per (keys ∷ rest) = pad per keys ++ pad_all per rest

module _ {X : Type 0} (xkb : Xkb X) where
  abbrev pub key_of : ℕ → X → Key × X
  key_of kc s =
      let shift = xkb.mask shift_modifier in
      let level3 = xkb.mask mod5 in
      let s0 = xkb.update_mask 0 s in
      let s1 = xkb.update_mask shift s0 in
      let s2 = xkb.update_mask level3 s1 in
      let s3 = xkb.update_mask (bit_or shift level3) s2 in
      (
        without_copies (record {
          base = sym_or_0 (xkb.one_sym kc s0);
          shift = sym_or_0 (xkb.one_sym kc s1);
          level3 = sym_or_0 (xkb.one_sym kc s2);
          shift3 = sym_or_0 (xkb.one_sym kc s3);
        }),
        s3,
      )

  -- The first loop over the keycodes.
  abbrev pub keys_from : ℕ → ℕ → X → List Key × X
  keys_from kc zero s = ([], s)
  keys_from kc (suc n) s =
      let (key, t) = key_of kc s in let (keys, u) = keys_from (suc kc) n t in (key ∷ keys, u)

  -- `for (keys, &m) in per_mod.iter_mut().zip(&x_mods)`, from the modifier `i` on.
  abbrev pub push_mods : ℕ → ℕ → ℕ → List (List ℕ) → List (List ℕ)
  push_mods kc set i [] = []
  push_mods kc set i (keys ∷ later) =
      let m = xkb.mask i in
      let rest = push_mods kc set (suc i) later in
      (if not (m == 0) && not (bit_and set m == 0) then keys ++ (kc ∷ []) else keys) ∷ rest

  -- The second loop.
  abbrev pub mods_from : ℕ → ℕ → X → List (List ℕ) → List (List ℕ)
  mods_from kc zero s per_mod = per_mod
  mods_from kc (suc n) s per_mod =
      let down = xkb.update_key kc true s in
      let up = xkb.update_mask 0 (xkb.update_key kc false down) in
      let known = xkb.has_layout kc s in
      mods_from (suc kc) n (if known then up else s)
        (if known then push_mods kc (xkb.mods_effective down) 0 per_mod else per_mod)

  -- `build`, once the keymap is compiled and `s` is a new state of it.
  unfoldable pub build : X → KeyTable
  build s =
      let (keys, t) = keys_from min_keycode keycodes s in
      let none_yet = [] ∷ [] ∷ [] ∷ [] ∷ [] ∷ [] ∷ [] ∷ [] ∷ [] in
      let per_mod = mods_from min_keycode keycodes (xkb.update_mask 0 t) none_yet in
      record { syms = flat (dedup keys); modmap = pad_all (max (longest per_mod) 1) per_mod }
