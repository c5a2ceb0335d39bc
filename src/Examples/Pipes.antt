-- ===== src/Examples/Pipes.antt =====
-- Concrete transfers of values, and devices.
use xwlrvnc.Base.{
  ◌≡◌, refl, Bool, true, false, none, some, List, [], ◌∷◌, ◌++◌, if◌then◌else◌, is_some,
}
use xwlrvnc.Wayland.DataControl.Sends.Delivered.{Call, IsOrderly, passes, run, run-IsOrderly, sends}
use xwlrvnc.Wayland.DataControl.Sends.{no_sends, would_block, wrote}
use xwlrvnc.Wayland.DataControl.Receives.{
  PendingReceive, ReadResult, budgets, eof, finish_receive, got, receive_idle_timeout,
  receive_timeout,
}
use xwlrvnc.Wayland.DataControl.Receives.Budgets.{
  all_arrived, arrived, finish_receive_lem, is_delivered,
}
use xwlrvnc.Wayland.DataControl.Device.Preferred.{
  Arrival, IsServed, arrive_all, arrive_all-IsServed, ext_arrives, seat_arrives, wlr_arrives,
}
use xwlrvnc.Wayland.DataControl.Device.{DataDevice, no_devices, publish_on}
use xwlrvnc.Wayland.DataControl.Device.Announced.{publish_on-take_echo, selection_made}
use xwlrvnc.Clip.Types.{Bytes, DataOffer, clipboard, primary}
use xwlrvnc.Clip.State.{SelState, default_clipboard, nobody, take_echo}
use xwlrvnc.Clip.Transitions.{echo_of}
use Prim.Native.String.{String}
use xwlrvnc.Wayland.DataControl.Receives

-- A value that takes two passes, and one whose receiver is gone.
abbrev calls : List Call
calls =
    sends true (wrote 2 5 ∷ []) 0 4 (b'a' ∷ b'b' ∷ b'c' ∷ [])
    ∷ passes 20 (λ fd. wrote 1 21 ∷ [])
    ∷ sends true [] 30 5 (b'd' ∷ [])
    ∷ []

abbrev letters : Bytes
letters = b'a' ∷ b'b' ∷ []

abbrev reads : List ReadResult
reads = got (b'b' ∷ []) ∷ ReadResult.interrupted ∷ got [] ∷ []

abbrev transfer : PendingReceive
transfer = record {
  fd = 7;
  sel = clipboard;
  mime = "text/plain";
  offer = DataOffer.ext 3;
  buf = [];
  since = 0;
  progress_at = 0;
  idle = receive_idle_timeout;
  total = receive_timeout;
  max = 100;
  conversion = 4;
}

abbrev half_read : PendingReceive
half_read = record transfer { buf = b'a' ∷ []; progress_at = 100 }

abbrev arrivals : List Arrival
arrivals = wlr_arrives 1 ∷ seat_arrives 2 ∷ ext_arrives ∷ []

abbrev sel_state : SelState
sel_state = record {
  owner = nobody;
  generation = 1;
  last_changed = 5;
  echoes = [];
  published = false;
  publishable = true;
}

run-IsOrderly_example : IsOrderly (run no_sends calls)
run-IsOrderly_example = run-IsOrderly calls

finish_receive_lem_example :
    (let whole =
        all_arrived ((100, got (b'a' ∷ []) ∷ ReadResult.would_block ∷ []) ∷ []) ++ arrived reads in
      (finish_receive eof (Receives.pump 200 reads half_read).0 default_clipboard).jobs.answers
      ≡ default_clipboard.jobs.answers
        ++ ((
          transfer.conversion,
          if is_delivered whole reads transfer default_clipboard then some whole else none,
        )
            ∷ []))
unfolding Receives.pump budgets
finish_receive_lem_example =
    finish_receive_lem ((100, got (b'a' ∷ []) ∷ ReadResult.would_block ∷ []) ∷ []) 200 reads
      transfer half_read eof default_clipboard (refl) (refl) (refl)

arrive_all-IsServed_example :
    IsServed
      (arrive_all (no_devices, default_clipboard) arrivals).0
      (arrive_all (no_devices, default_clipboard) arrivals).1
arrive_all-IsServed_example = arrive_all-IsServed arrivals

publish_on-take_echo_example :
    (made : Bool × List String) × (selection_made []
        (publish_on (DataDevice.wlr 2) primary (some letters))
      ≡ some (primary, made.0, made.1))
    × (take_echo made.0 made.1
          (record sel_state { echoes = echo_of (some letters) ∷ sel_state.echoes })
        ≡ (record sel_state { published = is_some (some letters) }, true))
publish_on-take_echo_example =
    publish_on-take_echo (DataDevice.wlr 2) primary (some letters) sel_state (refl)
