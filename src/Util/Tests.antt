-- ===== src/Util/Tests.antt =====
-- Waiting on concrete answers.
use dasim.Base.{◌≡◌, refl, true, false, some, [], ◌∷◌}
use dasim.Util.{Revents, interrupted, timed_out, ready, shutdown, poll_or_shutdown}
use dasim.Util.Waiting.{poll_or_shutdown-stops}

abbrev readable : Revents
readable = record { pollin = true; invalid = false }

poll_or_shutdown-stops_example :
    poll_or_shutdown true (interrupted ∷ timed_out ∷ ready readable readable ∷ []) ≡ some shutdown
poll_or_shutdown-stops_example =
    poll_or_shutdown-stops (interrupted ∷ timed_out ∷ []) [] readable readable (tt, (tt, tt)) refl
      refl
