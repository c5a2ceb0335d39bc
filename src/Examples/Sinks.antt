-- ===== src/Examples/Sinks.antt =====
-- A concrete sink, with one client that is connected and one that is not.
use xwlrvnc.Base.{ℕ, arith, true, false, List, [], ◌∷◌}
use xwlrvnc.Event.Sink.FanOut.{
  Reaches, cursor_due, fan_outs_lem, mapping_due, screen_due, selection_due,
}
use xwlrvnc.Event.Sink.{
  Notice, Registration, Sink, cursor_changed, keyboard_mapping_changed, screen_changed,
  selection_changed,
}
use xwlrvnc.Event.Outbox.Bounds.{IsValid}
use xwlrvnc.Event.Outbox.{new}

-- Not even four bytes of an event.
abbrev short : Notice → List ℕ
short notice = 34 ∷ []

abbrev listening : Registration
listening = record {
  client = record new {
    randr_window = 9;
    cursor_window = 10;
    root_structure = true;
    selections = record { atom = 5; window = 11; mask = 1 } ∷ [];
  };
  held = true;
}

abbrev clients : Sink
clients = listening ∷ record listening { held = false } ∷ []

listening-IsValid : IsValid listening.client
unfolding new
listening-IsValid = ground arith

fan_outs_lem_example :
    Reaches short
      (screen_due 89 1280 800 70 60)
      clients
      (screen_changed short 89 1280 800 70 60 clients)
    × Reaches short (cursor_due 87 3 70) clients (cursor_changed short 87 3 70 clients)
    × Reaches short
        (selection_due 87 5 0 11 70 65)
        clients
        (selection_changed short 87 5 0 11 70 65 clients)
    × Reaches short (mapping_due 8 248) clients (keyboard_mapping_changed short 8 248 clients)
fan_outs_lem_example =
    fan_outs_lem short 89 87 1280 800 70 60 3 5 0 11 65 8 248 clients
      (listening-IsValid, (listening-IsValid, tt))
