-- ===== src/Ring/Queue.antt =====
-- What the ring promises: a bounded queue of records, oldest first, beside an account of the drops.
use embarch_outpost.Prelude.{
  ℕ, Option, none, some, List, [], ◌∷◌, ◌++◌, length, if◌then◌else◌, ◌==◌, leb, ◌≡◌, ap,
}
use embarch_outpost.Wire.{Rec}
use embarch_outpost.Ring.{Gap, add32, sub32}

pub record Queue : Type 0 where
  pub queued : List Rec
  pub dropped : ℕ
  pub first : ℕ
  pub last : ℕ

unfoldable pub empty : Queue
empty = record { queued = []; dropped = 0; first = 0; last = 0 }

-- A record that finds `room` records waiting is dropped: the newest, never the oldest. The account
-- counts it, and keeps the stamps of the first and of the last that were dropped.
unfoldable pub put : ℕ → Rec → Queue → Queue
put room rec q =
    if leb room (length q.queued)
    then record q {
      dropped = add32 q.dropped 1;
      first = if q.dropped == 0 then rec.cycles else q.first;
      last = rec.cycles;
    }
    else record q { queued = q.queued ++ rec ∷ [] }

get_of : List Rec → Queue → Option Rec × Queue
get_of [] q = (none, q)
get_of (rec ∷ rest) q = (some rec, record q { queued = rest })

unfoldable pub get : Queue → Option Rec × Queue
unfolding get_of
get q = get_of q.queued q

unfoldable pub take_gap : Queue → Option Gap × Queue
take_gap q = if q.dropped == 0 then (none, q) else (
  some (record { dropped = q.dropped; first_cycles = q.first; cycle_span = sub32 q.last q.first }),
  record q { dropped = 0 },
)

pub get-nil : (q : Queue) → q.queued ≡ [] → get q ≡ (none, q)
unfolding get
get-nil q e = ap (λ l. get_of l q) e

pub get-cons :
    (q : Queue) (rec : Rec) (rest : List Rec)
    → q.queued ≡ rec ∷ rest
    → get q ≡ (some rec, record q { queued = rest })
unfolding get
get-cons q rec rest e = ap (λ l. get_of l q) e
