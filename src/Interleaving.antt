-- ===== src/Interleaving.antt =====
-- src/outpost_ring.c with many contexts at once: threads and interrupts are producers, the drain thread
-- is the one consumer, and each access to shared memory is a step that any other may follow.
pub mod Invariant
pub mod Quiet
pub mod Window
pub mod Reserve
pub mod Write
pub mod Produce
pub mod Consume
pub mod Take
pub mod Run
pub mod Between
pub mod Short
pub mod Losses
pub mod Calls
pub mod Accounts
pub mod Budget
pub mod LockFree
use embarch_outpost.Prelude.{
  ℕ, ◌+◌, ◌-◌, ◌%◌, ◌^◌, ◌<◌, List, [], ◌∷◌, ◌++◌, Option, none, some, if◌then◌else◌, ◌==◌,
}
use embarch_outpost.Wire.{Rec}
use embarch_outpost.Ring.{Ring, Call, Phase, Gap, put_step, ring_init_at}
use embarch_outpost.Ring.Taker.{Taker, take_step}
use embarch_outpost.Ring.Reader.{Reader, get_step}

-- A producer in its call. Ghosts, which the code does not have: `seen` is how many reservations there
-- had been when it loaded the head, and `mine` is the number of its reservation.
pub record Context : Type 0 where
  pub call : Call
  pub phase : Phase
  pub seen : ℕ
  pub mine : ℕ

-- Shared memory, the contexts, the consumer in its two functions, and the records and the accounts of
-- losses that it has been given, oldest first.
-- Ghosts: `reserved` and `taken` are the head and the tail if they did not wrap, and `log` holds the
-- record that each reservation was made for.
pub record World : Type 0 where
  pub ring : Ring
  pub contexts : ℕ → Context
  pub reader : Reader
  pub given : List Rec
  pub taker : Taker
  pub reported : List Gap
  pub reserved : ℕ
  pub taken : ℕ
  pub log : ℕ → Rec

abbrev pub override {ℓ} : {A : Type ℓ} → (ℕ → A) → ℕ → A → ℕ → A
override f i x j = if i == j then x else f j

-- Who moves next: a context starts a call, once its last call is over, or goes on with it, or the
-- consumer moves in `outpost_ring_get`, or in `outpost_ring_take_gap`.
pub data Pick : Type 0 where
  call : ℕ → Call → Pick
  go : ℕ → Pick
  read : Pick
  take : Pick

-- A context that is not in a call.
abbrev pub begun : Phase → Call → Context → Context
begun Phase.done c x = record x { call = c; phase = Phase.load_head }
begun phase c x = x

-- The ghosts of a context after the step that it makes from `phase`.
abbrev pub noted : ℕ → Phase → Context → Context
noted reserved Phase.load_head x = record x { seen = reserved }
noted reserved (Phase.cas head) x = record x { mine = reserved }
noted reserved phase x = x

-- The world's ghosts after it: a compare-and-swap that succeeds is a reservation.
abbrev pub logged : Phase → Rec → World → World
logged (Phase.cas head) rec w =
    if w.ring.head == head
    then record w { reserved = w.reserved + 1; log = override w.log w.reserved rec }
    else w
logged phase rec w = w

-- The consumer has been given a record.
abbrev pub handed : Option Rec → World → World
handed none w = w
handed (some rec) w = record w { given = w.given ++ rec ∷ []; taken = w.taken + 1 }

-- The consumer has been given an account.
abbrev pub told : Option Gap → World → World
told none w = w
told (some gap) w = record w { reported = w.reported ++ gap ∷ [] }

abbrev pub take_world : Taker → World → World
take_world place w =
    let (taker, ring, out) = take_step place w.ring in
    record (told out w) { taker = taker; ring = ring }

module _ (ring_slots : ℕ) where
  abbrev pub put_world : ℕ → Phase → Context → World → World
  put_world i phase x w =
      let (phase', ring) = put_step ring_slots x.call phase w.ring in
      record (logged phase x.call.rec w) {
        ring = ring;
        contexts = override w.contexts i (record (noted w.reserved phase x) { phase = phase' });
      }

  abbrev pub get_world : Reader → World → World
  get_world place w =
      let (reader, ring, out) = get_step ring_slots place w.ring in
      record (handed out w) { reader = reader; ring = ring }

  unfoldable pub move : Pick → World → World
  move (call i c) w = record w {
    contexts = override w.contexts i (begun (w.contexts i).phase c (w.contexts i));
  }
  move (go i) w = put_world i (w.contexts i).phase (w.contexts i) w
  move read w = get_world w.reader w
  move take w = take_world w.taker w

  unfoldable pub interleave : List Pick → World → World
  interleave [] w = w
  interleave (pick ∷ picks) w = interleave picks (move pick w)

  -- No context at work, after `outpost_ring_init_at(start)`.
  abbrev pub opening : ℕ → Ring → Context → World
  opening start r x = record {
    ring = ring_init_at ring_slots start r;
    contexts = λ i. record x { phase = Phase.done };
    reader = Reader.rest;
    given = [];
    taker = Taker.rest;
    reported = [];
    reserved = start;
    taken = start;
    log = λ i. x.call.rec;
  }

-- The head does not run all the way round, 2 ^ 32 reservations, between a context's load of it and
-- its compare-and-swap.
abbrev pub PromptPhase : ℕ → Phase → ℕ → Type 0
PromptPhase reserved (Phase.cas head) seen = reserved < seen + 2 ^ 32
PromptPhase reserved phase seen = Unit

abbrev pub PromptPick : Pick → World → Type 0
PromptPick (go i) w = PromptPhase w.reserved (w.contexts i).phase (w.contexts i).seen
PromptPick pick w = Unit

abbrev pub Prompt : ℕ → List Pick → World → Type 0
Prompt n [] w = Unit
Prompt n (pick ∷ picks) w = PromptPick pick w × Prompt n picks (move n pick w)
