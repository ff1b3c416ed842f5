-- ===== src/Concurrent/Drained.antt =====
-- Once no hook is at work, the drain thread delivers all.
use embarch_outpost.Prelude.{
  ℕ, zero, suc, ◌+◌, ◌-◌, ◌*◌, ◌^◌, ◌≤◌, ◌<◌, ◌≡◌, inl, inr, refl, sym, ap, ◌∙◌, Bool-cases, ltb,
  leb, ◌&&◌, List, [], ◌∷◌, length, arith,
}
use mathlib.Core.Path.{subst}
use embarch_outpost.Config.{Config, IsConfig}
use embarch_outpost.Ring.{ring_slots}
use embarch_outpost.Drain.{Image}
use embarch_outpost.Hooks.{Board}
use embarch_outpost.Thread.Answered.{IsImage}
use embarch_outpost.Interleaving.{World}
use embarch_outpost.Concurrent.{
  Stand, Desk, System, Deed, desk_step, thread_pick, moved, perform, run,
}
use embarch_outpost.Concurrent.Rounds.{left-pos, round_steps, place, desk_step-Nearer}
use embarch_outpost.Concurrent.Alone.{
  alone, IsAlone, perform-IsAlone, Reaches, step-Reaches, now-Reaches, then-Reaches,
}
use embarch_outpost.Concurrent.Midway.{waiting, Done, Midway, desk_step-Midway}

top_fills :
    (c : Config) (image : Image) (crc32 : List ℕ → ℕ) (now : ℕ) (t : Desk) (w : World)
    → (desk_step c image crc32 now Stand.top t w).stand ≡ Stand.fill
unfolding desk_step
top_fills c image crc32 now t w =
    elim (Bool-cases
      (ltb 0 c.header_interval_ms && leb c.header_interval_ms (now - t.last_header))) [
        | inl e ↦ rw e refl
        | inr e ↦ rw e refl
      ]

module _ (crc32 : List ℕ → ℕ) (c : Config) (board : Board) (image : Image)
    (word : (bytes : List ℕ) → crc32 bytes < 2 ^ 32) (ok : IsConfig c) (fits : IsImage c image)
    (start : ℕ) (w : World) where
  abbrev pub Lone : System → Type 0
  Lone s = IsAlone crc32 c board image word ok fits start w s

  abbrev after : ℕ → System → System
  after now s = perform c board image crc32 (Deed.thread now) s

  abbrev pub Gets : (System → Type 0) → ℕ → List ℕ → System → Type 0
  Gets P k times s = Reaches crc32 c board image P k times s

  abbrev pub AtTop : (System → Type 0) → System → Type 0
  AtTop Kept s = Kept s × (s.desk.stand ≡ Stand.top)

  -- What every step keeps holds when the thread comes to the top of its loop.
  pub walk :
      (Kept : System → Type 0)
      → ((now : ℕ) (s : System) → Kept s → Kept (after now s))
      → (times : List ℕ) (k : ℕ) (s : System) → Kept s
      → place c board image crc32 s ≤ k
      → k ≤ length times
      → Gets (AtTop Kept) k times s
  unfolding perform
  walk Kept keeps [] k s j h many =
      absurd (omega (arith, left-pos s.world.reader s.world.taker s.desk.stand))
  walk Kept keeps (now ∷ times) k s j h many =
      let pos = left-pos s.world.reader s.world.taker s.desk.stand in
      let j' = keeps now s j in
      elim (desk_step-Nearer crc32 c image now s.desk s.world s.desk.stand) [
        | inl at ↦
            step-Reaches crc32 c board image (AtTop Kept) 0 k now times s (omega (arith, pos))
              (now-Reaches crc32 c board image (AtTop Kept) 0 times (after now s) (j', at))
        | inr near ↦
            step-Reaches crc32 c board image (AtTop Kept) (k - 1) k now times s (omega (arith, pos))
              (walk Kept keeps times (k - 1) (after now s) j' (omega (arith, near))
                (omega (arith, pos)))
      ]

  -- In a round of the thread alone that began with `m` records in the ring at most.
  abbrev InRound : ℕ → System → Type 0
  InRound m s = Lone s × Midway m s.world s.desk.stand

  step_midway : (m now : ℕ) (s : System) → InRound m s → InRound m (after now s)
  unfolding perform
  step_midway m now s (v, mid) =
      let f = v.running.flow in
      (
        perform-IsAlone crc32 c board image word ok fits start w now s v,
        desk_step-Midway crc32 m c ok start s.desk s.world f.books.sized v.running.inv v.running.fit
            (λ i. ap (λ g. (g i).phase) v.calm.contexts ∙ v.quiet i) image now f.held s.desk.stand
            f.at mid,
      )

  from_top :
      (now : ℕ) (s : System) → s.desk.stand ≡ Stand.top → (after now s).desk.stand ≡ Stand.fill
  unfolding perform
  from_top now s at =
      ap (λ p. (desk_step c image crc32 now p s.desk s.world).stand) at
      ∙ top_fills c image crc32 now s.desk s.world

  world_at_top : (now : ℕ) (s : System) → s.desk.stand ≡ Stand.top → (after now s).world ≡ s.world
  unfolding perform
  world_at_top now s at = ap (λ p. moved (ring_slots c.ring_bytes) (thread_pick p) s.world) at

  fewer : (m : ℕ) (v : World) → Done (suc m) v → waiting v ≤ m
  fewer m v (cleared, inl less) = omega arith
  fewer m v (cleared, inr nothing) = omega arith

  -- A round takes a record, if there is one, and the account of the losses.
  abbrev pub Rounded : ℕ → System → Type 0
  Rounded m s = Lone s × (s.desk.stand ≡ Stand.top) × Done m s.world

  one_round :
      (m now : ℕ) (times : List ℕ) (s : System)
      → Lone s
      → s.desk.stand ≡ Stand.top
      → waiting s.world ≤ m
      → round_steps ≤ suc (length times)
      → Gets (Rounded m) round_steps (now ∷ times) s
  one_round m now times s v at few many =
      let s' = after now s in
      let filled = from_top now s at in
      let same = world_at_top now s at in
      let mid = subst (Midway m s'.world) (sym filled) (rw same few) in
      let v' = perform-IsAlone crc32 c board image word ok fits start w now s v in
      let near : place c board image crc32 s' ≤ 1152 = rw filled (omega arith) in
      let (first, later, all, short, ((lone, mid'), top_again)) =
        step-Reaches crc32 c board image (AtTop (InRound m)) 1152 round_steps now times s
          (omega arith)
          (walk (InRound m) (step_midway m) times 1152 s' (v', mid) near (omega arith)) in
      let end = run c board image crc32 (alone first) s in
      (first, later, all, short, (lone, top_again, subst (Midway m end.world) top_again mid'))

  -- Rounds until the ring is empty.
  pub all_rounds :
      (m : ℕ) (times : List ℕ) (s : System)
      → Lone s
      → s.desk.stand ≡ Stand.top
      → waiting s.world ≤ m
      → round_steps * suc m ≤ length times
      → Gets (Rounded 0) (round_steps * suc m) times s
  all_rounds m [] s v at few many = absurd (omega arith)
  all_rounds zero (now ∷ times) s v at few many = one_round 0 now times s v at few (omega arith)
  all_rounds (suc m) (now ∷ times) s v at few many =
      let e : round_steps * suc (suc m) ≡ round_steps + round_steps * suc m = omega arith in
      rw e (
        then-Reaches crc32 c board image (Rounded (suc m)) (Rounded 0) round_steps
          (round_steps * suc m) (now ∷ times) s (omega arith)
          (one_round (suc m) now times s v at few (omega arith))
          (λ later s' enough (v', at', done).
            all_rounds m later s' v' at' (fewer m s'.world done) enough))
