-- ===== src/Util.antt =====
-- Waiting for a descriptor or for shutdown: damanager/src/util.cc.
pub mod Waiting
mod Tests
use dasim.Base.{
  ℕ, zero, suc, ◌==◌, Bool, true, false, not, Option, none, some, List, [], ◌∷◌, if◌then◌else◌,
}

-- The revents of a descriptor: whether POLLIN is set, and whether another bit is.
pub record Revents : Type 0 where
  pub pollin : Bool
  pub invalid : Bool

-- What poll() returns: -1 with EINTR, -1 with another error, 0, or a positive number with the events
-- of the main descriptor and of the one for shutdown.
pub data Polled : Type 0 where
  interrupted failed timed_out : Polled
  ready : Revents → Revents → Polled

-- The results 1, 0, -1 and -2.
pub data PollResult : Type 0 where
  main_ready timeout error shutdown : PollResult

-- From `short revents` on.
unfoldable pub read_events : Revents → Revents → PollResult
read_events main stop =
    if stop.invalid
    then error
    else if stop.pollin
    then shutdown
    else if main.invalid
    then error
    else main_ready

-- `poll_or_shutdown`, with the answers of the calls of poll() that it makes; `none` where it still
-- waits after them. `forever` is a negative timeout; poll() itself always gets -1.
unfoldable pub poll_or_shutdown : Bool → List Polled → Option PollResult
unfolding read_events
poll_or_shutdown forever [] = none
poll_or_shutdown forever (interrupted ∷ rest) = poll_or_shutdown forever rest
poll_or_shutdown forever (failed ∷ rest) = some error
poll_or_shutdown forever (timed_out ∷ rest) =
    let again = poll_or_shutdown forever rest in if forever then again else some timeout
poll_or_shutdown forever (ready main stop ∷ rest) = some (read_events main stop)
