-- ===== src/Concurrent/Accounts.antt =====
-- Every record that a hook offers is delivered, on its way, or accounted for.
use embarch_outpost.Prelude.{
  ℕ, ◌+◌, ◌%◌, ◌^◌, ◌<◌, ◌≡◌, refl, ap, ◌∙◌, Bool, List, [], ◌∷◌, Option, none, some, length,
  length-append, arith,
}
use native.Mathlib.Decide.{dec_lt}
use embarch_outpost.Config.{Config, IsConfig}
use embarch_outpost.Wire.{Rec}
use embarch_outpost.Ring.{Ring, Phase, ring_slots}
use embarch_outpost.Ring.Config.{ring_slots-IsSlots}
use embarch_outpost.Ring.Refine.{view}
use embarch_outpost.Drain.{Drain, Image}
use embarch_outpost.Drain.Losses.{IsDrain}
use embarch_outpost.Host.{decode_stream}
use embarch_outpost.Hooks.{Board, Put, hook}
use embarch_outpost.Thread.Answered.{IsImage}
use embarch_outpost.Thread.Progress.{not_gap, lost_in, trace, concat}
use embarch_outpost.Interleaving.{World, Pick, opening, Prompt, interleave}
use embarch_outpost.Interleaving.Losses.{total}
use embarch_outpost.Interleaving.Calls.{starting, calls, Within, untouched}
use embarch_outpost.Interleaving.Accounts.{interleave-accounts}
use embarch_outpost.Concurrent.{
  Stand, System, Deed, thread_pick, put_pick, moved, perform, run, boot, no_call,
}
use embarch_outpost.Concurrent.Delivery.{InBatch, run_gives}
use embarch_outpost.Concurrent.Runs.{AllDeeds, picks, run-world, with_pick}

-- A hook that has something to record begins a call of `outpost_ring_put`, in a context that is in none.
abbrev pub offered : ℕ → Option Put → World → ℕ
offered i none w = 0
offered i (some p) w = starting (w.contexts i).phase

abbrev pub deed_offers : Config → Board → Deed → System → ℕ
deed_offers c board (Deed.event i now may_block e) s = offered i (hook c board e) s.world
deed_offers c board (Deed.go_on i) s = 0
deed_offers c board (Deed.thread now) s = 0

-- Finitely many contexts.
abbrev pub IsFew : ℕ → List Deed → Type 0
IsFew many [] = Unit
IsFew many (Deed.event i now may_block e ∷ deeds) = (i < many) × IsFew many deeds
IsFew many (Deed.go_on i ∷ deeds) = (i < many) × IsFew many deeds
IsFew many (Deed.thread now ∷ deeds) = IsFew many deeds

module _ (crc32 : List ℕ → ℕ) (c : Config) (board : Board) (image : Image) where
  abbrev pub offers : List Deed → System → ℕ
  offers [] s = 0
  offers (deed ∷ deeds) s =
      deed_offers c board deed s + offers deeds (perform c board image crc32 deed s)

  put_pick-Within :
      (many i now : ℕ) (may_block : Bool) (o : Option Put) (ps : List Pick)
      → i < many
      → Within many ps
      → Within many (with_pick (put_pick i now may_block o) ps)
  put_pick-Within many i now may_block none ps h k = k
  put_pick-Within many i now may_block (some p) ps h k = (h, k)

  thread_pick-Within :
      (many : ℕ) (p : Stand) (ps : List Pick)
      → Within many ps
      → Within many (with_pick (thread_pick p) ps)
  thread_pick-Within many (Stand.gapping b) ps k = k
  thread_pick-Within many (Stand.getting b) ps k = k
  thread_pick-Within many _ ps k = k

  picks-Within :
      (many : ℕ) (deeds : List Deed) (s : System)
      → IsFew many deeds
      → Within many (picks crc32 c board image deeds s)
  picks-Within many [] s few = tt
  picks-Within many (Deed.event i now may_block e ∷ deeds) s few =
      put_pick-Within many i now may_block (hook c board e) _ few.0
        (picks-Within many deeds _ few.1)
  picks-Within many (Deed.go_on i ∷ deeds) s few = (few.0, picks-Within many deeds _ few.1)
  picks-Within many (Deed.thread now ∷ deeds) s few =
      thread_pick-Within many s.desk.stand _ (picks-Within many deeds _ few)

  abbrev n : ℕ
  n = ring_slots c.ring_bytes

  put_pick-calls :
      (i now : ℕ) (may_block : Bool) (o : Option Put) (ps : List Pick) (w : World)
      → calls n (with_pick (put_pick i now may_block o) ps) w
        ≡ offered i o w + calls n ps (moved n (put_pick i now may_block o) w)
  put_pick-calls i now may_block none ps w = omega arith
  put_pick-calls i now may_block (some p) ps w = refl

  thread_pick-calls :
      (p : Stand) (ps : List Pick) (w : World)
      → calls n (with_pick (thread_pick p) ps) w ≡ calls n ps (moved n (thread_pick p) w)
  thread_pick-calls (Stand.gapping b) ps w = omega arith
  thread_pick-calls (Stand.getting b) ps w = omega arith
  thread_pick-calls _ ps w = refl

  picks-calls :
      (deeds : List Deed) (s : System)
      → calls n (picks crc32 c board image deeds s) s.world ≡ offers deeds s
  unfolding perform
  picks-calls [] s = refl
  picks-calls (Deed.event i now may_block e ∷ deeds) s =
      let after = perform c board image crc32 (Deed.event i now may_block e) s in
      put_pick-calls i now may_block (hook c board e) (picks crc32 c board image deeds after)
        s.world
      ∙ ap (λ k. offered i (hook c board e) s.world + k) (picks-calls deeds after)
  picks-calls (Deed.go_on i ∷ deeds) s =
      omega (arith, picks-calls deeds (perform c board image crc32 (Deed.go_on i) s))
  picks-calls (Deed.thread now ∷ deeds) s =
      let after = perform c board image crc32 (Deed.thread now) s in
      omega (
        arith,
        thread_pick-calls s.desk.stand (picks crc32 c board image deeds after) s.world,
        picks-calls deeds after,
      )

module _ (crc32 : List ℕ → ℕ) (word : (bytes : List ℕ) → crc32 bytes < 2 ^ 32) (c : Config)
    (ok : IsConfig c) (board : Board) (image : Image) (fits : IsImage c image) (d : Drain)
    (sized : IsDrain c d) (nothing : d.sent ≡ []) (uptime start : ℕ) (small : start < 2 ^ 32)
    (r : Ring) (deeds : List Deed) (fine : AllDeeds deeds)
    (prompt : Prompt
      (ring_slots c.ring_bytes)
      (picks crc32 c board image deeds (boot c uptime d start r))
      (opening (ring_slots c.ring_bytes) start r no_call)) where
  abbrev pub after : System
  after = run c board image crc32 deeds (boot c uptime d start r)

  after_world :
      after.world
      ≡ interleave
          (ring_slots c.ring_bytes)
          (picks crc32 c board image deeds (boot c uptime d start r))
          (opening (ring_slots c.ring_bytes) start r no_call)
  after_world = run-world crc32 c board image deeds (boot c uptime d start r)

  pub all_over :
      (many : ℕ)
      → IsFew many deeds
      → ((i : ℕ) → i < many → (after.world.contexts i).phase ≡ Phase.done)
      → (i : ℕ) → (after.world.contexts i).phase ≡ Phase.done
  all_over many few over i =
      let s = boot c uptime d start r in
      elim (dec_lt i many) [
        | yes h ↦ over i h
        | no h ↦
            rw
              (
                after_world,
                untouched (ring_slots c.ring_bytes) many i (omega arith)
                    (picks crc32 c board image deeds s) s.world
                    (picks-Within crc32 c board image many deeds s few),
              )
              refl
      ]

  -- In such a run, with finitely many contexts that are in no call at the end: the records that the
  -- host decodes from the bytes sent and those in the batch, gap records left out, the records in
  -- the queue of the ring, the losses that the gap records report, and the count of those still to
  -- be reported, are together as many as the calls that hooks made of `outpost_ring_put`, modulo 2
  -- ^ 32: no event that a hook records vanishes or counts twice.
  pub run_accounts :
      (many : ℕ)
      → IsFew many deeds
      → ((i : ℕ) → i < many → (after.world.contexts i).phase ≡ Phase.done)
      → (held : List Rec) × InBatch after.desk.drain held after.desk.stand
        × ((let ds = decode_stream crc32 (concat after.desk.drain.sent) in
                length (not_gap (trace ds))
                + length (not_gap held)
                + length (view (ring_slots c.ring_bytes) after.world.ring).queued
                + (lost_in (trace ds) + lost_in held)
                + after.world.ring.gap_dropped)
              % 2 ^ 32
            ≡ offers crc32 c board image deeds (boot c uptime d start r) % 2 ^ 32)
  run_accounts many few over =
      let (held, in_batch, kept_lost) =
        run_gives crc32 word c ok board image fits d sized nothing uptime start small r deeds fine
          prompt in
      let ds = decode_stream crc32 (concat after.desk.drain.sent) in
      let s = boot c uptime d start r in
      let counted : (length after.world.given
              + length (view (ring_slots c.ring_bytes) after.world.ring).queued
              + total after.world.reported
              + after.world.ring.gap_dropped)
            % 2 ^ 32
          ≡ calls (ring_slots c.ring_bytes) (picks crc32 c board image deeds s) s.world % 2 ^ 32 =
        rw after_world (
          interleave-accounts (ring_slots-IsSlots c.ring_bytes) many start r no_call small
            (picks crc32 c board image deeds s) prompt
            (picks-Within crc32 c board image many deeds s few)
            (rw⁻¹ after_world (all_over many few over))) in
      (
        held,
        in_batch,
        omega (
          arith,
          counted,
          picks-calls crc32 c board image deeds s,
          ap length kept_lost.0,
          length-append (not_gap (trace ds)) (not_gap held),
          kept_lost.1,
        ),
      )
