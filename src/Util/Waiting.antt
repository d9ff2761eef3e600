-- ===== src/Util/Waiting.antt =====
-- When waiting ends, and with what.
use dasim.Base.{◌≡◌, refl, true, false, some, List, [], ◌∷◌, ◌++◌}
use dasim.Util.{
  Revents, Polled, interrupted, failed, timed_out, ready, shutdown, read_events, poll_or_shutdown,
}

-- An answer after which poll() is called again.
abbrev pub Retried : Polled → Type 0
Retried interrupted = Unit
Retried timed_out = Unit
Retried _ = ⊥

abbrev pub AllRetried : List Polled → Type 0
AllRetried [] = Unit
AllRetried (p ∷ rest) = Retried p × AllRetried rest

-- A shutdown that is signalled is never missed: with a negative timeout, interruptions and empty
-- answers are waited out, and as soon as the shutdown descriptor can be read the result is -2,
-- whatever the main descriptor shows, unless the shutdown descriptor has an invalid event.
pub poll_or_shutdown-stops :
    (waited rest : List Polled) (main stop : Revents)
    → AllRetried waited
    → stop.pollin ≡ true
    → stop.invalid ≡ false
    → poll_or_shutdown true (waited ++ ready main stop ∷ rest) ≡ some shutdown
unfolding poll_or_shutdown read_events
poll_or_shutdown-stops [] rest main stop all signalled valid =
    rw (valid, signalled, poll_or_shutdown, read_events) refl
poll_or_shutdown-stops (interrupted ∷ waited) rest main stop (_, all) signalled valid =
    poll_or_shutdown-stops waited rest main stop all signalled valid
poll_or_shutdown-stops (timed_out ∷ waited) rest main stop (_, all) signalled valid =
    poll_or_shutdown-stops waited rest main stop all signalled valid
poll_or_shutdown-stops (failed ∷ waited) rest main stop (bad, all) signalled valid = absurd bad
poll_or_shutdown-stops (ready m t ∷ waited) rest main stop (bad, all) signalled valid = absurd bad
