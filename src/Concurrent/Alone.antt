-- ===== src/Concurrent/Alone.antt =====
-- The drain thread alone: once no hook is in a call and none is called, only the thread moves.
use embarch_outpost.Prelude.{
  ℕ, suc, ◌+◌, ◌≤◌, ◌<◌, ◌^◌, ◌≡◌, refl, sym, ap, ◌∙◌, List, [], ◌∷◌, ◌++◌, append_assoc, Option,
  none, some, length, length-append, arith,
}
use embarch_outpost.Config.{Config, IsConfig}
use embarch_outpost.Wire.{Rec}
use embarch_outpost.Ring.{Phase, Gap, ring_slots}
use embarch_outpost.Ring.Taker.{take_step}
use embarch_outpost.Ring.Reader.{get_step}
use embarch_outpost.Drain.{Image}
use embarch_outpost.Hooks.{Board}
use embarch_outpost.Thread.Answered.{IsImage}
use embarch_outpost.Interleaving.{World, move, told, handed, Prompt}
use embarch_outpost.Interleaving.Losses.{total, get_world-tally, take_world-tally}
use embarch_outpost.Concurrent.{Stand, System, Deed, thread_pick, moved, perform, run}
use embarch_outpost.Concurrent.Runs.{with_pick, IsRunning, run-IsRunning}

-- Steps of the thread at these uptimes.
abbrev pub alone : List ℕ → List Deed
alone [] = []
alone (now ∷ times) = Deed.thread now ∷ alone times

-- What the thread leaves to the hooks.
pub record Calm (w w' : World) : Type 0 where
  pub contexts : w'.contexts ≡ w.contexts
  pub reserved : w'.reserved ≡ w.reserved
  pub log : w'.log ≡ w.log
  pub losses : total w'.reported + w'.ring.gap_dropped ≡ total w.reported + w.ring.gap_dropped

abbrev SameHooks : World → World → Type 0
SameHooks w w' = (w'.contexts ≡ w.contexts) × (w'.reserved ≡ w.reserved) × (w'.log ≡ w.log)

told-SameHooks : (gap : Option Gap) (w : World) → SameHooks w (told gap w)
told-SameHooks none w = (refl, refl, refl)
told-SameHooks (some g) w = (refl, refl, refl)

handed-SameHooks : (out : Option Rec) (w : World) → SameHooks w (handed out w)
handed-SameHooks none w = (refl, refl, refl)
handed-SameHooks (some rec) w = (refl, refl, refl)

thread_pick-Calm : (n : ℕ) (p : Stand) (w : World) → Calm w (moved n (thread_pick p) w)
unfolding move
thread_pick-Calm n (Stand.gapping b) w =
    let same = told-SameHooks (take_step w.taker w.ring).2 w in
    record {
      contexts = same.0;
      reserved = same.1;
      log = same.2;
      losses = take_world-tally n w.taker w;
    }
thread_pick-Calm n (Stand.getting b) w =
    let same = handed-SameHooks (get_step n w.reader w.ring).2 w in
    record {
      contexts = same.0;
      reserved = same.1;
      log = same.2;
      losses = get_world-tally n w.reader w;
    }
thread_pick-Calm n _ w = record { contexts = refl; reserved = refl; log = refl; losses = refl }

thread_pick-Prompt : (n : ℕ) (p : Stand) (w : World) → Prompt n (with_pick (thread_pick p) []) w
thread_pick-Prompt n (Stand.gapping b) w = (tt, tt)
thread_pick-Prompt n (Stand.getting b) w = (tt, tt)
thread_pick-Prompt n _ w = tt

module _ (crc32 : List ℕ → ℕ) (c : Config) (board : Board) (image : Image)
    (word : (bytes : List ℕ) → crc32 bytes < 2 ^ 32) (ok : IsConfig c) (fits : IsImage c image)
    (start : ℕ) (w : World) where
  -- Since the world was `w`, with no context in a call, only the thread has moved.
  pub record IsAlone (s : System) : Type 0 where
    pub running : IsRunning crc32 c board image word ok fits start s
    pub quiet : (i : ℕ) → (w.contexts i).phase ≡ Phase.done
    pub calm : Calm w s.world

  pub perform-IsAlone :
      (now : ℕ) (s : System) → IsAlone s → IsAlone (perform c board image crc32 (Deed.thread now) s)
  unfolding run perform
  perform-IsAlone now s v =
      let k = thread_pick-Calm (ring_slots c.ring_bytes) s.desk.stand s.world in
      record {
        running =
            run-IsRunning crc32 c board image word ok fits start (Deed.thread now ∷ []) s (tt, tt)
              (thread_pick-Prompt (ring_slots c.ring_bytes) s.desk.stand s.world) v.running;
        quiet = v.quiet;
        calm = record {
          contexts = k.contexts ∙ v.calm.contexts;
          reserved = k.reserved ∙ v.calm.reserved;
          log = k.log ∙ v.calm.log;
          losses = k.losses ∙ v.calm.losses;
        };
      }

module _ (crc32 : List ℕ → ℕ) (c : Config) (board : Board) (image : Image) where
  -- After at most `k` steps of the thread, of those at `times`, `P` holds.
  abbrev pub Reaches : (System → Type 0) → ℕ → List ℕ → System → Type 0
  Reaches P k times s =
      (first later : List ℕ) × (times ≡ first ++ later)
      × (length first ≤ k)
      × P (run c board image crc32 (alone first) s)

  pub step-Reaches :
      (P : System → Type 0) (k k' now : ℕ) (times : List ℕ) (s : System)
      → suc k ≤ k'
      → Reaches P k times (perform c board image crc32 (Deed.thread now) s)
      → Reaches P k' (now ∷ times) s
  unfolding run
  step-Reaches P k k' now times s h (first, later, all, few, at) =
      (now ∷ first, later, ap (λ l. now ∷ l) all, omega arith, at)

  pub now-Reaches :
      (P : System → Type 0) (k : ℕ) (times : List ℕ) (s : System) → P s → Reaches P k times s
  unfolding run
  now-Reaches P k times s h = ([], times, refl, omega arith, h)

  run-alone :
      (first second : List ℕ) (s : System)
      → run c board image crc32 (alone (first ++ second)) s
        ≡ run c board image crc32 (alone second) (run c board image crc32 (alone first) s)
  unfolding run
  run-alone [] second s = refl
  run-alone (now ∷ first) second s =
      run-alone first second (perform c board image crc32 (Deed.thread now) s)

  pub then-Reaches :
      (P Q : System → Type 0) (k k' : ℕ) (times : List ℕ) (s : System)
      → k + k' ≤ length times
      → Reaches P k times s
      → ((later : List ℕ) (s' : System) → k' ≤ length later → P s' → Reaches Q k' later s')
      → Reaches Q (k + k') times s
  then-Reaches P Q k k' times s many (first, later, all, few, h) next =
      let len = ap length all ∙ length-append first later in
      let (second, rest, all', few', h') =
        next later (run c board image crc32 (alone first) s) (omega (arith, len)) h in
      (
        first ++ second,
        rest,
        all ∙ ap (λ l. first ++ l) all' ∙ sym (append_assoc first second rest),
        omega (arith, length-append first second),
        rw (run-alone first second s) h',
      )
