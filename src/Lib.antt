-- ===== src/Lib.antt =====
-- xwlrvnc: the parts of the bridge between X clients and a Wayland compositor that keep state, and
-- what makes each of them correct.
--
-- The program is a fake X server. One thread per X connection (src/bridge/x11/conn.rs) answers
-- requests; one thread talks to the Wayland compositor (src/bridge/wayland/); a writer thread for each
-- connection sends what is queued. They share the components modelled here, each behind a lock:
--
-- * Event.Outbox is src/bridge/event/client.rs. A `Client` is the record of that name, with its outbox; what
--   the writer thread has written is the field `wire`, and whether the socket was shut down is `shut`.
--   Outbox.Calls makes one step of each call, so that a list of calls is an interleaving of the threads.
--   `send` is the part that `send_reply` and `send_event_bytes` have in common. `writer_step` takes a buffer from
--   the queue and writes it to the socket in one step, where the source writes outside the lock: another
--   thread's call that falls between the two is taken to come after the write.
-- * Event.Time is the clock of src/bridge/event/mod.rs: `server_time_ms`, `note_selection_time` and
--   `time_cmp`. The static `TIME_FLOOR` and the clock's reading are arguments.
-- * Event.Sink is the `EventSink` of src/bridge/event/mod.rs, over the clients of Event.Outbox, and
--   src/bridge/cursor.rs. An event is a `Notice`, and the four functions ending in `notices` list what one fan-out
--   sends to a client.
-- * Clip.Jobs is src/bridge/clipjobs.rs, the queue of clipboard work for the Wayland thread. A pending
--   conversion is a number; `answers` records which were called back, and with what. Jobs.Calls adds the
--   jobs that the Wayland thread has taken and not yet run.
-- * Clip.State and Clip.Transitions are src/bridge/clipboard.rs. `Clipboard` is its `Inner` with the job
--   queue beside it and the clock's floor; each transition returns the `Effects` that the code returns.
--   Where a transition posts a job it calls `post` of Clip.Jobs. A transition that takes its lock more
--   than once is one step.
-- * X11.Selection is src/bridge/x11/selection.rs, the fetches of one connection.
-- * X11.Randr is src/bridge/x11/randr.rs: modes and identifiers in X11.Randr itself, `pack_axis` in Pack, the
--   screen's size in Layout, what clients set in Crtc and what the compositor reports in Sync. A size is
--   a 16-bit number, a position an integer of Base.Int, and a sum of 32-bit integers wraps.
-- * Dynres is src/bridge/dynres.rs. A turn is what a thread does between taking the lock and releasing
--   it, by returning or by waiting.
-- * Damage is src/bridge/damage.rs. An event is returned where the code sends one.
-- * Wayland.OutputConfig is src/bridge/wayland/output_config.rs, the client of Dynres on the Wayland thread. A `State` is
--   the part of the thread's state that the file uses, with what it sent; Events has a request's start and
--   the compositor's events, of which a list is a run, with what the X threads do in between. `taken`
--   counts the requests taken up.
-- * Wayland.DataControl is src/bridge/wayland/data_control/: a value on its way to an application's pipe in Sends, one
--   on its way from it in Receives, the device of either protocol and its publisher in Device. Loop has the
--   `State` of src/bridge/wayland/mod.rs as far as the clipboard goes, with the `Clipboard` of Clip.State and its
--   job queue in it: the jobs that are run, the events, and a pass of the loop. Loop.Calls lists what the X
--   threads, the compositor and the loop do. What a read or a write of a pipe answers is a list of results, and
--   what the compositor is asked for is the list `requests`.
-- * Capture is src/bridge/capture.rs: reads of the frame buffer in Capture itself, compositing in Blit and, through a
--   transform of Util.Transform, in Turned. A slice is its length and the byte at each index.
-- * Input.Devices is src/bridge/input.rs and Input.Keymap is src/bridge/keymap.rs. What is asked of the virtual
--   devices is the list `sent`. Of xkbcommon they have the calls that the source makes, as parameters. Input
--   uses Util.Layout, which is src/util/layout.rs.
-- * X11.Targets is src/bridge/x11/targets.rs, X11.Atom is src/bridge/x11/atom.rs, and X11.Property is both
--   src/bridge/x11/property.rs and src/bridge/x11/window.rs.
-- * Util.Transform and Util.Boxes are src/util/transform.rs and the bounding box of src/util/geometry.rs.
--
-- The other modules under each of these hold the theorems. Base holds what all share: lists measured
-- by native numbers, machine words, integers, and maps as association lists. Examples applies each
-- theorem at a concrete input.
--
-- Numbers are unbounded, and every operation of the source that wraps is written with its modulus. The
-- length of a buffer in memory is not bounded; sums of lengths that the source saturates are written as
-- sums. A `HashMap` is an association list; nothing proved depends on its order. Reading the clock is an
-- argument, in milliseconds. No definition runs on fuel but the digits of a number, which get as many
-- steps as a number of their width has digits: five for 16 bits, ten for 32 bits.
--
-- Not modelled: the dispatch of X requests in src/bridge/x11/conn.rs and of the other protocol
-- objects in src/bridge/wayland/, whose types other crates generate; the sessions that capture the screen;
-- the extensions in src/bridge/x11/; the options of src/main.rs and src/config.rs; and the preload
-- library dynres/.
pub mod Base
pub mod Event
pub mod Capture
pub mod Clip
pub mod X11
pub mod Dynres
pub mod Util
pub mod Damage
pub mod Wayland
pub mod Input
pub mod Examples
