-- ===== src/Concurrent/Liveness.antt =====
-- Once no hook is at work, the drain thread delivers all that the hooks recorded.
use embarch_outpost.Prelude.{
  ℕ, suc, ◌+◌, ◌-◌, ◌*◌, ◌^◌, ◌≤◌, ◌<◌, ◌≡◌, inl, inr, refl, sym, ap, ap₂, ◌∙◌, List, [], ◌++◌,
  append-nil, length, arith,
}
use mathlib.Core.Path.{subst}
use embarch_outpost.Config.{Config, IsConfig}
use embarch_outpost.Wire.{Rec}
use embarch_outpost.Ring.{Ring, Phase, ring_slots}
use embarch_outpost.Host.{decode_stream}
use embarch_outpost.Host.Split.{decode_stream-IsClosed}
use embarch_outpost.Drain.{Drain, Image}
use embarch_outpost.Drain.Losses.{IsDrain}
use embarch_outpost.Hooks.{Board}
use embarch_outpost.Thread.Answered.{IsImage}
use embarch_outpost.Thread.Progress.{not_gap, lost_in, trace, concat}
use embarch_outpost.Interleaving.{World, opening, Prompt}
use embarch_outpost.Interleaving.Invariant.{span}
use embarch_outpost.Interleaving.Losses.{total}
use embarch_outpost.Concurrent.{System, Deed, run, boot, no_call}
use embarch_outpost.Concurrent.Flow.{IsAt}
use embarch_outpost.Concurrent.Runs.{AllDeeds, picks}
use embarch_outpost.Concurrent.Rounds.{left-le, round_steps}
use embarch_outpost.Concurrent.Alone.{alone, perform-IsAlone, then-Reaches}
use embarch_outpost.Concurrent.Midway.{waiting}
use embarch_outpost.Concurrent.Drained.{AtTop, Lone, Rounded, walk, all_rounds}
use embarch_outpost.Concurrent.Delivery.{running}
use embarch_outpost.Concurrent.Accounts.{IsFew, all_over}

-- The host decodes from the bytes sent what the world `w` had recorded, and its losses.
abbrev pub Delivered : (List ℕ → ℕ) → ℕ → World → System → Type 0
Delivered crc32 start w s =
    let ds = decode_stream crc32 (concat s.desk.drain.sent) in
    (not_gap (trace ds) ≡ span w.log start (w.reserved - start))
    × (lost_in (trace ds) ≡ total w.reported + w.ring.gap_dropped)

module _ (crc32 : List ℕ → ℕ) (word : (bytes : List ℕ) → crc32 bytes < 2 ^ 32) (c : Config)
    (ok : IsConfig c) (board : Board) (image : Image) (fits : IsImage c image) where
  Rounded-Delivered :
      (start : ℕ) (w : World) (s : System)
      → Rounded crc32 c board image word ok fits start w 0 s
      → Delivered crc32 start w s
  Rounded-Delivered start w s (v, at, (cleared, ended)) =
      let b = v.running.flow.books in
      let top_at =
        subst (IsAt s.desk.drain v.running.flow.held s.world.reader s.world.taker) at
          v.running.flow.at in
      let decoded : decode_stream crc32 (concat s.desk.drain.sent) ≡ b.ds =
        decode_stream-IsClosed crc32 (concat s.desk.drain.sent) b.ds b.closed in
      let empty : waiting s.world ≡ 0 = elim ended [
        | inl less ↦ omega arith
        | inr none_left ↦ none_left
      ] in
      let all : s.world.taken ≡ w.reserved =
        omega (arith, empty, v.calm.reserved, v.running.inv.order) in
      rw decoded (
        sym (append-nil (not_gap (trace b.ds)))
            ∙ sym (ap (λ (l : List Rec). not_gap (trace b.ds) ++ not_gap l) top_at.0)
            ∙ b.kept
            ∙ v.running.inv.out
            ∙ ap₂ (λ (log : ℕ → Rec) k. span log start (k - start)) v.calm.log all,
        omega (arith, ap lost_in top_at.0, b.lost, cleared, v.calm.losses),
      )

  module _ (d : Drain) (sized : IsDrain c d) (nothing : d.sent ≡ []) (uptime start : ℕ)
      (small : start < 2 ^ 32) (r : Ring) (deeds : List Deed) (fine : AllDeeds deeds)
      (prompt : Prompt
        (ring_slots c.ring_bytes)
        (picks crc32 c board image deeds (boot c uptime d start r))
        (opening (ring_slots c.ring_bytes) start r no_call)) where
    abbrev after : System
    after = run c board image crc32 deeds (boot c uptime d start r)

    -- From a ring after `outpost_ring_init_at(start)`, for every start below 2 ^ 32, with nothing
    -- sent, buffers of their sizes, a configuration in range and strings of at most BUILD_ID_MAX
    -- bytes: after every run of hooks' calls, the numbers and cycle counts of their events
    -- uint32_t, in finitely many contexts, of steps in `outpost_ring_put` and of the drain thread,
    -- with no head running 2 ^ 32 reservations round between a load of it and its compare-and-swap,
    -- which ends with no context in a call: if then only the drain thread takes steps, after at
    -- most 1153 for each slot of the ring and 2306 more there is a moment when the records that the
    -- host decodes from all bytes sent, gap records left out, are the records of all reservations
    -- in their order, and the gap records report all losses.
    pub run_drains :
        (many : ℕ)
        → IsFew many deeds
        → ((i : ℕ) → i < many → (after.world.contexts i).phase ≡ Phase.done)
        → (times : List ℕ) → round_steps * (ring_slots c.ring_bytes + 2) ≤ length times
        → (first later : List ℕ) × (times ≡ first ++ later)
          × (length first ≤ round_steps * (ring_slots c.ring_bytes + 2))
          × Delivered crc32 start after.world (run c board image crc32 (alone first) after)
    run_drains many few_of over times enough_of =
        let n = ring_slots c.ring_bytes in
        let v : Lone crc32 c board image word ok fits start after.world after = record {
          running =
              running crc32 word c ok board image fits d sized nothing uptime start small r deeds
                fine prompt;
          quiet =
              all_over crc32 word c ok board image fits d sized nothing uptime start small r deeds
                fine prompt many few_of over;
          calm = record { contexts = refl; reserved = refl; log = refl; losses = refl };
        } in
        let split : round_steps * (n + 2) ≡ round_steps + round_steps * suc n = omega arith in
        let few : waiting after.world ≤ n = omega (arith, v.running.inv.room) in
        let (first, later, all, short, rounded) =
          then-Reaches crc32 c board image
            (AtTop crc32 c board image word ok fits start after.world
              (Lone crc32 c board image word ok fits start after.world))
            (Rounded crc32 c board image word ok fits start after.world 0) round_steps
            (round_steps * suc n) times after (omega (arith, split, enough_of))
            (walk crc32 c board image word ok fits start after.world
              (Lone crc32 c board image word ok fits start after.world)
              (perform-IsAlone crc32 c board image word ok fits start after.world) times round_steps
              after v (left-le after.world.reader after.world.taker after.desk.stand)
              (omega (arith, split, enough_of)))
            (λ later s enough (lone, at).
              all_rounds crc32 c board image word ok fits start after.world n later s lone at
                (omega (arith, lone.running.inv.room)) enough) in
        (
          first,
          later,
          all,
          omega (arith, split, short),
          Rounded-Delivered start after.world (run c board image crc32 (alone first) after) rounded,
        )
