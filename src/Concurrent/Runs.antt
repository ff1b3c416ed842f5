-- ===== src/Concurrent/Runs.antt =====
-- Every run of the whole system keeps the books.
use embarch_outpost.Prelude.{
  ℕ, suc, ◌^◌, ◌<◌, ◌≡◌, ◌≢◌, refl, sym, ◌∙◌, Bool, List, [], ◌∷◌, Option, none, some, length, ◌≤◌,
  arith,
}
use embarch_outpost.Config.{Config, IsConfig}
use embarch_outpost.Ring.{Ring, ring_slots}
use embarch_outpost.Ring.Config.{ring_slots-IsSlots}
use embarch_outpost.Drain.{Drain, Image, kind_gap}
use embarch_outpost.Hooks.{Board, Event, Put, Kind, hook, kind_code}
use embarch_outpost.Hooks.Exclusion.{IsEvent, hook-IsRec}
use embarch_outpost.Thread.Answered.{IsImage}
use embarch_outpost.Interleaving.{World, Pick, move, interleave, opening, Prompt}
use embarch_outpost.Interleaving.Invariant.{Inv}
use embarch_outpost.Interleaving.Short.{Prompt-short}
use embarch_outpost.Interleaving.Run.{move-Inv}
use embarch_outpost.Concurrent.{
  Stand, Desk, System, Deed, thread_pick, put_pick, moved, deed_pick, deed_desk, perform, run, boot,
  no_call,
}
use embarch_outpost.Concurrent.Fits.{IsPick, Fits, move-Fits}
use embarch_outpost.Concurrent.Flow.{Flow, Flow-Same, put_world-Same}
use embarch_outpost.Concurrent.Moves.{desk_step-Flow}

-- The cycle count and the numbers of the event are uint32_t.
abbrev pub IsDeed : Deed → Type 0
IsDeed (Deed.event i now may_block e) = IsEvent e × (now < 2 ^ 32)
IsDeed deed = Unit

abbrev pub AllDeeds : List Deed → Type 0
AllDeeds [] = Unit
AllDeeds (deed ∷ deeds) = IsDeed deed × AllDeeds deeds

-- The accesses to shared memory in a run.
abbrev pub with_pick : Option Pick → List Pick → List Pick
with_pick none picks = picks
with_pick (some pick) picks = pick ∷ picks

kind_code-ne_gap : (k : Kind) → kind_code k ≢ kind_gap
unfolding kind_code
kind_code-ne_gap k = ground arith

abbrev IsPicked : Option Pick → Type 0
IsPicked none = Unit
IsPicked (some pick) = IsPick pick

module _ (c : Config) (board : Board) where
  put_pick-IsPicked :
      (i now : ℕ) (may_block : Bool) (e : Event) (o : Option Put)
      → IsEvent e
      → now < 2 ^ 32
      → hook c board e ≡ o
      → IsPicked (put_pick i now may_block o)
  put_pick-IsPicked i now may_block e none fine small eq = tt
  put_pick-IsPicked i now may_block e (some p) fine small eq =
      (hook-IsRec c board p e now may_block fine small eq, kind_code-ne_gap p.kind)

  thread_pick-IsPicked : (p : Stand) → IsPicked (thread_pick p)
  thread_pick-IsPicked p = ground arith

  deed_pick-IsPicked :
      (deed : Deed) (s : System) → IsDeed deed → IsPicked (deed_pick c board deed s)
  deed_pick-IsPicked (Deed.event i now may_block e) s fine =
      put_pick-IsPicked i now may_block e (hook c board e) fine.0 fine.1 refl
  deed_pick-IsPicked (Deed.go_on i) s fine = tt
  deed_pick-IsPicked (Deed.thread now) s fine = thread_pick-IsPicked s.desk.stand

module _ (crc32 : List ℕ → ℕ) (c : Config) (board : Board) (image : Image) where
  abbrev n : ℕ
  n = ring_slots c.ring_bytes

  -- The accesses to shared memory in a run.
  abbrev pub picks : List Deed → System → List Pick
  picks [] s = []
  picks (deed ∷ deeds) s =
      with_pick (deed_pick c board deed s) (picks deeds (perform c board image crc32 deed s))

  with_pick-run :
      (o : Option Pick) (ps : List Pick) (w : World)
      → interleave n (with_pick o ps) w ≡ interleave n ps (moved n o w)
  unfolding interleave
  with_pick-run none ps w = refl
  with_pick-run (some pick) ps w = refl

  -- The accesses are a run of the ring.
  pub run-world :
      (deeds : List Deed) (s : System)
      → (run c board image crc32 deeds s).world ≡ interleave n (picks deeds s) s.world
  unfolding run perform interleave
  run-world [] s = refl
  run-world (deed ∷ deeds) s =
      run-world deeds (perform c board image crc32 deed s)
      ∙ sym (
          with_pick-run (deed_pick c board deed s)
            (picks deeds (perform c board image crc32 deed s)) s.world)

  module _ (word : (bytes : List ℕ) → crc32 bytes < 2 ^ 32) (ok : IsConfig c)
      (fits : IsImage c image) (start : ℕ) where
    pub record IsRunning (s : System) : Type 0 where
      pub inv : Inv n start s.world
      pub fit : Fits s.world
      pub flow : Flow crc32 c s.desk s.world

    moved-Inv :
        (o : Option Pick) (ps : List Pick) (w : World)
        → Prompt n (with_pick o ps) w
        → Inv n start w
        → Inv n start (moved n o w)
    moved-Inv none ps w prompt i = i
    moved-Inv (some pick) ps w prompt i =
        move-Inv (ring_slots-IsSlots c.ring_bytes) start pick [] w (prompt.0, tt) i

    moved-Fits : (o : Option Pick) (w : World) → IsPicked o → Fits w → Fits (moved n o w)
    moved-Fits none w fine f = f
    moved-Fits (some pick) w fine f = move-Fits n w f pick fine

    called-Flow :
        (i now : ℕ) (may_block : Bool) (o : Option Put) (t : Desk) (w : World)
        → Flow crc32 c t w
        → Flow crc32 c t (moved n (put_pick i now may_block o) w)
    unfolding move
    called-Flow i now may_block none t w f = f
    called-Flow i now may_block (some p) t w f =
        Flow-Same crc32 c t w _
          (record { given = refl; reported = refl; reader = refl; taker = refl }) f

    deed-Flow :
        (deed : Deed) (s : System)
        → IsRunning s
        → Flow crc32 c
            (deed_desk c board image crc32 deed s)
            (moved n (deed_pick c board deed s) s.world)
    unfolding move
    deed-Flow (Deed.event i now may_block e) s v =
        called-Flow i now may_block (hook c board e) s.desk s.world v.flow
    deed-Flow (Deed.go_on i) s v =
        Flow-Same crc32 c s.desk s.world _
          (put_world-Same n i (s.world.contexts i).phase (s.world.contexts i) s.world) v.flow
    deed-Flow (Deed.thread now) s v =
        desk_step-Flow crc32 word c ok image fits now s.desk s.world s.desk.stand v.flow.held
          v.flow.books v.flow.at v.inv.reader v.fit

    Prompt-rest :
        (o : Option Pick) (ps : List Pick) (w : World)
        → Prompt n (with_pick o ps) w
        → Prompt n ps (moved n o w)
    Prompt-rest none ps w prompt = prompt
    Prompt-rest (some pick) ps w prompt = prompt.1

    pub run-IsRunning :
        (deeds : List Deed) (s : System)
        → AllDeeds deeds
        → Prompt n (picks deeds s) s.world
        → IsRunning s
        → IsRunning (run c board image crc32 deeds s)
    unfolding run perform
    run-IsRunning [] s fine prompt v = v
    run-IsRunning (deed ∷ deeds) s fine prompt v =
        let pick = deed_pick c board deed s in
        let after = perform c board image crc32 deed s in
        run-IsRunning deeds after fine.1 (Prompt-rest pick (picks deeds after) s.world prompt)
          (record {
            inv = moved-Inv pick (picks deeds after) s.world prompt v.inv;
            fit = moved-Fits pick s.world (deed_pick-IsPicked c board deed s fine.0) v.fit;
            flow = deed-Flow deed s v;
          })

-- A step is one access at most.
length-with_pick : (o : Option Pick) (ps : List Pick) → length (with_pick o ps) ≤ suc (length ps)
length-with_pick none ps = omega arith
length-with_pick (some pick) ps = omega arith

length-picks :
    (crc32 : List ℕ → ℕ) (c : Config) (board : Board) (image : Image) (deeds : List Deed)
    (s : System)
    → length (picks crc32 c board image deeds s) ≤ length deeds
length-picks crc32 c board image [] s = omega arith
length-picks crc32 c board image (deed ∷ deeds) s =
    let after = perform c board image crc32 deed s in
    omega (
      arith,
      length-with_pick (deed_pick c board deed s) (picks crc32 c board image deeds after),
      length-picks crc32 c board image deeds after,
    )

-- In a run of at most 2 ^ 32 steps no head can run all the way round.
pub picks-Prompt :
    (crc32 : List ℕ → ℕ) (c : Config) (board : Board) (image : Image) (deeds : List Deed)
    (uptime : ℕ) (d : Drain) (start : ℕ) (r : Ring)
    → length deeds ≤ 2 ^ 32
    → Prompt
        (ring_slots c.ring_bytes)
        (picks crc32 c board image deeds (boot c uptime d start r))
        (opening (ring_slots c.ring_bytes) start r no_call)
picks-Prompt crc32 c board image deeds uptime d start r short =
    Prompt-short (ring_slots c.ring_bytes) start r no_call
      (picks crc32 c board image deeds (boot c uptime d start r))
      (omega (arith, length-picks crc32 c board image deeds (boot c uptime d start r)))
