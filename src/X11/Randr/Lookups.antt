-- ===== src/X11/Randr/Lookups.antt =====
-- The searches of the screen's lists, and how its changes show in them.
use xwlrvnc.X11.Randr.Sync.{of_wl_name}
use xwlrvnc.Base.{
  ℕ, ◌≡◌, ◌≢◌, inl, inr, refl, Bool, true, false, not, ◌||◌, ◌==◌, ==_refl, List, [], ◌∷◌, ◌++◌,
  find, any, update_first, contains, retain, arith, Bool-cases, Option, none, some,
}
use xwlrvnc.X11.Randr.{Output, Mode, size_in, lists, list_mode, is_wayland}
use xwlrvnc.X11.Randr.Crtc.{is_size, natives}

-- A mode that an output lists survives the pruning.
pub size_in-pruned :
    (os : List Output) (ms : List Mode) (id : ℕ)
    → any (lists id) os ≡ true
    → size_in (retain (λ m. not m.ours || any (lists m.info.id) os) ms) id ≡ size_in ms id
size_in-pruned os [] id h = refl
size_in-pruned os (m ∷ ms) id h = elim (Bool-cases (m.info.id == id)) [
  | inl hit ↦ ground (arith, size_in-pruned os ms id h)
  | inr miss ↦ ground (arith, size_in-pruned os ms id h)
]

pub find-update_first :
    (wl_name : ℕ) (f : Output → Output) (os : List Output) (o : Output)
    → find (of_wl_name wl_name) os ≡ some o
    → (f o).wl_name ≡ o.wl_name
    → find (of_wl_name wl_name) (update_first (of_wl_name wl_name) f os) ≡ some (f o)
find-update_first wl_name f [] o h e = cc
find-update_first wl_name f (o' ∷ os) o h e = ground (arith, find-update_first wl_name f os o)

pub find-append :
    (wl_name : ℕ) (os : List Output) (o : Output)
    → find (of_wl_name wl_name) os ≡ none
    → o.wl_name ≡ wl_name
    → wl_name ≢ 0
    → find (of_wl_name wl_name) (retain is_wayland (os ++ (o ∷ []))) ≡ some o
find-append wl_name [] o h e z = ground arith
find-append wl_name (o' ∷ os) o h e z = ground (arith, find-append wl_name os o)

pub any_of_find :
    (p q : Output → Bool) (os : List Output) (o : Output)
    → find p os ≡ some o
    → q o ≡ true
    → any q os ≡ true
any_of_find p q [] o h e = cc
any_of_find p q (o' ∷ os) o h e = ground (arith, any_of_find p q os o)

pub size_in-append :
    (ms : List Mode) (m : Mode) (id : ℕ)
    → size_in ms id ≡ none
    → m.info.id ≡ id
    → size_in (ms ++ (m ∷ [])) id ≡ some (m.info.width, m.info.height)
size_in-append [] m id h e = ground arith
size_in-append (n ∷ ms) m id h e = ground (arith, size_in-append ms m id)

pub is_size-some :
    (width height : ℕ) (size : Option (ℕ × ℕ))
    → is_size width height size ≡ true
    → size ≡ some (width, height)
is_size-some width height none h = cc
is_size-some width height (some (w, k)) h = ground arith

pub contains-append : (ids : List ℕ) (id : ℕ) → contains (ids ++ (id ∷ [])) id ≡ true
contains-append [] id = ground (arith, ==_refl id)
contains-append (x ∷ ids) id = ground (arith, contains-append ids id)

pub contains-list_mode : (mode : ℕ) (o : Output) → contains (list_mode mode o).mode_ids mode ≡ true
contains-list_mode mode o = elim (Bool-cases (contains o.mode_ids mode)) [
  | inl e ↦ ground arith
  | inr e ↦ ground (arith, contains-append o.mode_ids mode)
]

pub contains-drop :
    (stale ids : List ℕ) (id : ℕ)
    → contains stale id ≡ false
    → contains ids id ≡ true
    → contains (retain (λ m. not (contains stale m)) ids) id ≡ true
contains-drop stale [] id h e = cc
contains-drop stale (x ∷ ids) id h e = elim (Bool-cases (x == id)) [
  | inl hit ↦ ground (arith, ==_refl id)
  | inr miss ↦ ground (arith, contains-drop stale ids id)
]

pub contains-natives :
    (p : Mode → Bool) (mode : ℕ) (ms : List Mode) → contains (natives p mode ms) mode ≡ false
contains-natives p mode [] = refl
contains-natives p mode (m ∷ ms) = ground (arith, contains-natives p mode ms)
