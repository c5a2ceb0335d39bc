-- ===== src/Clip/Types.antt =====
-- What bridge/clipjobs.rs and bridge/clipboard.rs share: selections, offers and jobs.
use xwlrvnc.Base.{ℕ, List, Option}
use Prim.Native.String.{String}

pub data Sel : Type 0 where
  clipboard primary : Sel

-- A protocol object of wayland-client, by its object id.
pub data DataOffer : Type 0 where
  ext : ℕ → DataOffer
  wlr : ℕ → DataOffer

abbrev pub Bytes : Type 0
Bytes = List ℕ

-- A pending conversion is the closure that answers one X client: `conversion` is its identity.
pub data Job : Type 0 where
  publish : Sel → Option Bytes → Job
  receive : (sel : Sel) (mime : String) (generation since conversion : ℕ) → Job
  destroy : List DataOffer → Job
