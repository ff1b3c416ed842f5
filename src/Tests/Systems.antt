-- ===== src/Tests/Systems.antt =====
-- The system: the theorem at a run of two events and five steps of the drain thread.
use embarch_outpost.Prelude.{◌≡◌, List, [], ◌∷◌, some, ◌+◌, ◌++◌, ◌<◌, ◌^◌, length, refl, arith}
use embarch_outpost.Ring.{Ring, ring_slots}
use embarch_outpost.Ring.Refine.{view}
use embarch_outpost.Host.{decode_stream}
use embarch_outpost.Thread.Progress.{concat}
use embarch_outpost.Thread.Books.{Kept, offers, delivered, reported}
use embarch_outpost.Thread.Delivery.{system_delivers}
use embarch_outpost.Drain.Losses.{IsLive}
use embarch_outpost.Hooks.{
  Event, hook, thread_switched, isr_hook, active_vector, is_self_vector, outpost_marker, kind_code,
}
use embarch_outpost.Thread.{Position, Thread, Action, event, thread, system_run}
use embarch_outpost.Thread.System.{IsImage, IsSystem}
use embarch_outpost.Tests.Data.{
  at_wrap, at_wrap-IsValid, checksum, checksum_word, small, small-IsConfig, fresh_drain,
  fresh_drain-IsDrain, lossy, lossy-IsLive, image, board,
}

abbrev starting : Thread
starting = record { drain = fresh_drain; last_header = 0; position = Position.begin }

starting-IsSystem : IsSystem small starting lossy
starting-IsSystem = record { drain = fresh_drain-IsDrain; live = lossy-IsLive }

image-IsImage : IsImage small image
image-IsImage = record { version = omega arith; build_id = omega arith; chars = omega arith }

abbrev actions : List Action
actions =
    thread 3
    ∷ event 5000 (Event.marked 1 77)
    ∷ thread 4
    ∷ thread 4
    ∷ event 5500 (Event.isr_entered 20)
    ∷ thread 54
    ∷ thread 54
    ∷ []

-- Nothing offered yet.
at_wrap-IsLive : IsLive small at_wrap
unfolding ring_slots
at_wrap-IsLive = record {
  valid = record {
    head = at_wrap-IsValid.head;
    tail = at_wrap-IsValid.tail;
    bounded = at_wrap-IsValid.bounded;
    published = at_wrap-IsValid.published;
  };
  recs = tt;
  gap_dropped = omega arith;
  gap_first = omega arith;
}

offers_few : length (offers small board actions) < 2 ^ 32
unfolding hook thread_switched isr_hook active_vector is_self_vector outpost_marker kind_code
offers_few = omega arith

nothing_queued : (view (ring_slots small.ring_bytes) at_wrap).queued ≡ []
unfolding ring_slots
nothing_queued = refl

system_delivers_example :
    (t : Thread) × (r : Ring) × (system_run small board image checksum actions starting at_wrap
      ≡ some (t, r))
    × (let ds = decode_stream checksum (concat t.drain.sent) in
        let all = delivered ds ++ (view (ring_slots small.ring_bytes) r).queued in
        Kept all (offers small board actions)
        × (length all + reported ds + r.gap_dropped ≡ length (offers small board actions)))
system_delivers_example =
    system_delivers checksum checksum_word small image small-IsConfig image-IsImage board actions
      starting at_wrap
      (tt, ((omega arith, omega arith), (tt, (tt, ((tt, omega arith), (tt, (tt, tt))))))) offers_few
      (record { drain = fresh_drain-IsDrain; live = at_wrap-IsLive }) refl nothing_queued refl
