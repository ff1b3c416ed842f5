-- ===== src/Interleaving/Short.antt =====
-- In a run of fewer than 2 ^ 32 steps no head can run all the way round.
use embarch_outpost.Prelude.{
  Option, none, some, ℕ, suc, ◌+◌, ◌^◌, ◌≤◌, ◌<◌, inl, inr, Bool, Bool-cases, List, [], ◌∷◌, length,
  ◌==◌, leb, arith,
}
use native.Mathlib.Decide.{ℕ_discrete}
use embarch_outpost.Ring.{Ring, Call, Phase, put_step, after_loads, sub32, Gap}
use embarch_outpost.Ring.Taker.{Taker, gap_of, take_step}
use embarch_outpost.Ring.Reader.{Reader, get_step}
use embarch_outpost.Interleaving.{
  Context, World, Pick, call, go, read, begun, move, opening, override, put_world, get_world,
  Prompt, PromptPhase, PromptPick, take, told, take_world,
}
use embarch_outpost.Interleaving.Quiet.{override_same, override_ne}

-- A head that was loaded in the run.
abbrev IsLoaded : ℕ → Phase → ℕ → Type 0
IsLoaded start (Phase.load_tail head) seen = start ≤ seen
IsLoaded start (Phase.cas head) seen = start ≤ seen
IsLoaded start phase seen = Unit

-- After `k` steps.
record Early (start k : ℕ) (w : World) : Type 0 where
  few : w.reserved ≤ start + k
  first : start ≤ w.reserved
  loaded : (i : ℕ) → IsLoaded start (w.contexts i).phase (w.contexts i).seen

contexts-IsLoaded :
    (start : ℕ) (contexts : ℕ → Context) (i : ℕ) (x : Context)
    → ((j : ℕ) → IsLoaded start (contexts j).phase (contexts j).seen)
    → IsLoaded start x.phase x.seen
    → (j : ℕ) → IsLoaded start (override contexts i x j).phase (override contexts i x j).seen
contexts-IsLoaded start contexts i x old now j = elim (ℕ_discrete i j) [
  | yes e ↦ rw (← e, override_same contexts i x) now
  | no ne ↦ rw (override_ne contexts i j x ne) (old j)
]

loads-IsLoaded :
    (n start head tail seen : ℕ) (block : Bool)
    → start ≤ seen
    → IsLoaded start (after_loads n block head tail) seen
unfolding after_loads
loads-IsLoaded n start head tail seen block h = elim (Bool-cases (leb n (sub32 head tail))) [
  | inl full ↦ rw full (elim (Bool-cases block) [ inl b ↦ rw b tt | inr b ↦ rw b tt ])
  | inr room ↦ rw room h
]

begun-IsLoaded :
    (start : ℕ) (p : Phase) (c : Call) (x : Context)
    → IsLoaded start x.phase x.seen
    → IsLoaded start (begun p c x).phase (begun p c x).seen
begun-IsLoaded start Phase.done c x h = tt
begun-IsLoaded start _ c x h = h

module _ (n start k : ℕ) (w : World) (e : Early start k w) where
  moved :
      (i : ℕ) (x : Context) (ring : Ring)
      → IsLoaded start x.phase x.seen
      → Early start (suc k) (record w { ring = ring; contexts = override w.contexts i x })
  moved i x ring now = record {
    few = omega (arith, e.few);
    first = e.first;
    loaded = contexts-IsLoaded start w.contexts i x e.loaded now;
  }

  put_world-Early :
      (i : ℕ) (p : Phase) (x : Context)
      → IsLoaded start p x.seen
      → Early start (suc k) (put_world n i p x w)
  unfolding put_step
  put_world-Early i Phase.load_head x h = moved i _ _ e.first
  put_world-Early i (Phase.load_tail head) x h =
      moved i _ _ (loads-IsLoaded n start head w.ring.tail x.seen x.call.may_block h)
  put_world-Early i (Phase.cas head) x h = elim (Bool-cases (w.ring.head == head)) [
    | inl won ↦ rw won (record {
      few = omega (arith, e.few);
      first = omega (arith, e.first);
      loaded = contexts-IsLoaded start w.contexts i _ e.loaded tt;
    })
    | inr lost ↦ rw lost (moved i _ _ tt)
  ]
  put_world-Early i (Phase.write_cycles head) x h = moved i _ _ tt
  put_world-Early i (Phase.write_kind head) x h = moved i _ _ tt
  put_world-Early i (Phase.write_a head) x h = moved i _ _ tt
  put_world-Early i (Phase.write_b head) x h = moved i _ _ tt
  put_world-Early i (Phase.publish head) x h = moved i _ _ tt
  put_world-Early i Phase.drop_count x h = elim (Bool-cases (w.ring.gap_dropped == 0)) [
    | inl t ↦ rw t (moved i _ _ tt)
    | inr t ↦ rw t (moved i _ _ tt)
  ]
  put_world-Early i Phase.drop_first x h = moved i _ _ tt
  put_world-Early i Phase.drop_last x h = moved i _ _ tt
  put_world-Early i Phase.done x h = moved i _ _ tt

  read_quiet :
      (p : Reader) (ring : Ring) → Early start (suc k) (record w { reader = p; ring = ring })
  read_quiet p ring = record { few = omega (arith, e.few); first = e.first; loaded = e.loaded }

  get_world-Early : (p : Reader) → Early start (suc k) (get_world n p w)
  unfolding get_step
  get_world-Early Reader.rest = read_quiet _ _
  get_world-Early (Reader.get_head tail) = read_quiet _ _
  get_world-Early (Reader.get_seq tail) = read_quiet _ _
  get_world-Early (Reader.copy_cycles tail) = read_quiet _ _
  get_world-Early (Reader.copy_kind tail out) = read_quiet _ _
  get_world-Early (Reader.copy_a tail out) = read_quiet _ _
  get_world-Early (Reader.copy_b tail out) = read_quiet _ _
  get_world-Early (Reader.set_tail tail out) = record {
    few = omega (arith, e.few);
    first = e.first;
    loaded = e.loaded;
  }

  take_quiet :
      (out : Option Gap) (p : Taker) (ring : Ring)
      → Early start (suc k) (record (told out w) { taker = p; ring = ring })
  take_quiet none p ring = record { few = omega (arith, e.few); first = e.first; loaded = e.loaded }
  take_quiet (some gap) p ring = record {
    few = omega (arith, e.few);
    first = e.first;
    loaded = e.loaded;
  }

  take_world-Early : (p : Taker) → Early start (suc k) (take_world p w)
  unfolding take_step
  take_world-Early Taker.rest = take_quiet none _ _
  take_world-Early (Taker.read_last first) = take_quiet none _ _
  take_world-Early (Taker.clear first last) = take_quiet (gap_of first last w.ring.gap_dropped) _ _

  move-Early : (pick : Pick) → Early start (suc k) (move n pick w)
  unfolding move
  move-Early (call i c) =
      moved i _ w.ring (begun-IsLoaded start (w.contexts i).phase c (w.contexts i) (e.loaded i))
  move-Early (go i) = put_world-Early i (w.contexts i).phase (w.contexts i) (e.loaded i)
  move-Early read = get_world-Early w.reader
  move-Early take = take_world-Early w.taker

  prompt_phase :
      (p : Phase) (seen : ℕ) → k < 2 ^ 32 → IsLoaded start p seen → PromptPhase w.reserved p seen
  prompt_phase (Phase.cas head) seen small h = omega (arith, e.few)
  prompt_phase (Phase.load_tail head) seen small h = tt
  prompt_phase Phase.load_head seen small h = tt
  prompt_phase _ seen small h = tt

  prompt_pick : (pick : Pick) → k < 2 ^ 32 → PromptPick pick w
  prompt_pick (call i c) small = tt
  prompt_pick (go i) small =
      prompt_phase (w.contexts i).phase (w.contexts i).seen small (e.loaded i)
  prompt_pick read small = tt
  prompt_pick take small = tt

Early-Prompt :
    (n start k : ℕ) (picks : List Pick) (w : World)
    → k + length picks ≤ 2 ^ 32
    → Early start k w
    → Prompt n picks w
Early-Prompt n start k [] w small e = tt
Early-Prompt n start k (pick ∷ picks) w small e = (
  prompt_pick n start k w e pick (omega arith),
  Early-Prompt n start (suc k) picks (move n pick w) (omega arith) (move-Early n start k w e pick),
)

pub Prompt-short :
    (n start : ℕ) (r : Ring) (x : Context) (picks : List Pick)
    → length picks ≤ 2 ^ 32
    → Prompt n picks (opening n start r x)
Prompt-short n start r x picks small =
    Early-Prompt n start 0 picks (opening n start r x) (omega arith)
      (record { few = omega arith; first = omega arith; loaded = λ i. tt })
