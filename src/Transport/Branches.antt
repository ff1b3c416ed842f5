-- ===== src/Transport/Branches.antt =====
-- The four ways through `transport_send`, whatever the semaphore holds when it is called.
use embarch_outpost.Prelude.{
  ℕ, zero, suc, ◌≡◌, refl, length, take, drop, true, false, List, [], ◌∷◌, ◌++◌,
}
use embarch_outpost.Transport.{SemOps, IsSem, Line, Outcome, Move, returned, shift, thread}

-- The thread moves `k` times before the others.
abbrev pub waits : ℕ → List Move → List Move
waits zero moves = moves
waits (suc k) moves = thread true ∷ waits k moves

pub drop-length : (bytes : List ℕ) → drop (length bytes) bytes ≡ []
drop-length [] = refl
drop-length (byte ∷ bytes) = drop-length bytes

-- The driver puts `j` bytes on the wire before the others.
abbrev pub shifts : ℕ → List Move → List Move
shifts zero moves = moves
shifts (suc j) moves = shift ∷ shifts j moves

module _ {S : Type 0} (ops : SemOps S) (ms : ℕ) where
  -- The first `j` bytes of a transfer are out.
  abbrev pub after_bytes : ℕ → List ℕ → Line S → Line S
  after_bytes j bytes l = record l { todo = drop j bytes; wire = l.wire ++ take j bytes }

module _ {S : Type 0} {ops : SemOps S} (sem : IsSem ops) (ms : ℕ) (l : Line S) where
  -- After the reset, and the transfer that the driver accepted.
  abbrev pub underway : Line S
  underway = record l {
    tx_done = ops.k_sem_reset l.tx_done;
    busy = true;
    aborting = false;
    todo = l.frame;
  }

  -- The call's last step, after the driver has called back.
  abbrev pub taken : Outcome → Line S → Line S
  taken outcome x = record x {
    tx_done = (sem.take_give (ops.k_sem_reset l.tx_done)).0;
    sending = returned outcome;
    busy = false;
    aborting = false;
  }

  -- The transfer with `j` bytes of the frame on the wire.
  abbrev pub partly : ℕ → Line S
  partly j = after_bytes ops ms j l.frame underway
