-- ===== src/Examples/Clip.antt =====
-- Concrete states of the two selections.
use xwlrvnc.Base.{◌≡◌, refl, inl, true, false, none, some, List, [], ◌∷◌, arith}
use xwlrvnc.Clip.Types.{Sel, clipboard, ext, primary}
use xwlrvnc.Clip.State.{
  Clipboard, changed_at, convertible, offer_at, sel_of, source, take_echo, text_mimes, wayland, x,
}
use xwlrvnc.Clip.Jobs.{drain_expired, post}
use xwlrvnc.Clip.Transitions.{wayland_announced, x_fetched, x_took}
use xwlrvnc.Clip.Transitions.Calls.{Transition, announces, run, step, takes}
use xwlrvnc.Clip.Transitions.Readers.{IsAgreed, readers_agree}
use xwlrvnc.Clip.Transitions.Generation.{offer_at-convertible}
use xwlrvnc.Clip.Transitions.Echoes.{AllSettled, run-AllSettled}
use xwlrvnc.Clip.Transitions.Announced.{
  IsEchoed, IsSuperseded, foreign_supersedes, x_fetched-IsEchoed,
}
use xwlrvnc.Event.Time.{server_time_ms}

-- A Wayland app owns the clipboard, and an X client's window 7 the primary selection, whose value we
-- have published: the echo of the publication is owed.
abbrev board : Clipboard
board = record {
  clip = record {
    owner = wayland (ext 5) ("text/html" ∷ []);
    generation = 3;
    last_changed = 100;
    echoes = [];
    published = false;
    publishable = true;
  };
  prim = record {
    owner = x (record { window = 7; client = 1; time = 90; value = some (b'o' ∷ []) });
    generation = 1;
    last_changed = 90;
    echoes = source ∷ [];
    published = true;
    publishable = true;
  };
  last_timestamp = 100;
  jobs = record { queue = []; wake = 0; running = true; answers = [] };
  floor = 100;
}

-- Another client takes the primary selection, and the compositor's echo arrives.
abbrev history : List (Sel × Transition)
history = (primary, takes 9 2 120 130) ∷ (primary, announces (some (ext 6)) text_mimes 140) ∷ []

offer_at-convertible_example :
    (sel_of clipboard board).owner ≡ wayland (ext 5) (convertible clipboard board).0
unfolding offer_at convertible run step x_took server_time_ms changed_at wayland_announced take_echo
offer_at-convertible_example =
    offer_at-convertible board clipboard history (ext 5) (omega arith) (omega arith) (refl)

-- The X client that owns the primary selection has not been asked for its value, and nothing is published.
abbrev unfetched : Clipboard
unfetched = record board {
  prim = record {
    owner = x (record { window = 7; client = 1; time = 90; value = none });
    generation = 1;
    last_changed = 90;
    echoes = [];
    published = false;
    publishable = true;
  };
}

x_fetched-IsEchoed_example :
    IsEchoed primary
      (record { window = 7; client = 1; time = 90; value = none })
      (b'o' ∷ [])
      (ext 6)
      (ext 8)
      unfetched
      (x_fetched primary 7 90 (b'o' ∷ []) 140 141 unfetched).0
      150
      160
unfolding post drain_expired
x_fetched-IsEchoed_example =
    x_fetched-IsEchoed primary 7 90 (b'o' ∷ []) 140 141
      (record { window = 7; client = 1; time = 90; value = none }) (ext 6) (ext 8) 150 160 unfetched
      refl refl refl refl

foreign_supersedes_example :
    IsSuperseded primary
      (some (ext 6))
      ("text/html" ∷ [])
      board
      (wayland_announced primary (some (ext 6)) ("text/html" ∷ []) 150 board)
      160
      7
      1
foreign_supersedes_example =
    foreign_supersedes primary (some (ext 6)) ("text/html" ∷ []) 150 160 7 1 board refl
      (omega arith) (omega arith) (omega arith)

run-AllSettled_example : AllSettled (run board history)
run-AllSettled_example = run-AllSettled board history (
  record { within = omega arith; carried = inl refl },
  record { within = omega arith; carried = inl refl },
)

readers_agree_example : IsAgreed primary board
readers_agree_example = readers_agree primary board
