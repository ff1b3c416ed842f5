-- ===== src/Interleaving/Invariant.antt =====
-- What holds between any two steps.
use embarch_outpost.Prelude.{
  ℕ, zero, suc, ◌+◌, ◌-◌, ◌%◌, ◌^◌, ◌≤◌, ◌<◌, ◌≡◌, ◌≢◌, ◌⊎◌, Bool, true, false, List, [], ◌∷◌,
}
use embarch_outpost.Wire.{Rec}
use embarch_outpost.Ring.{Ring, Slot, Phase, seq_for}
use embarch_outpost.Ring.Reader.{Reader}
use embarch_outpost.Interleaving.{Context, World}

-- The records of `count` reservations from `first` on.
abbrev pub span : (ℕ → Rec) → ℕ → ℕ → List Rec
span log first zero = []
span log first (suc count) = log first ∷ span log (suc first) count

-- Between the compare-and-swap and the publication.
abbrev pub writes : Phase → Bool
writes (Phase.write_cycles head) = true
writes (Phase.write_kind head) = true
writes (Phase.write_a head) = true
writes (Phase.write_b head) = true
writes (Phase.publish head) = true
writes phase = false

-- The local `head` there, and 0 elsewhere.
abbrev pub head_of : Phase → ℕ
head_of (Phase.write_cycles head) = head
head_of (Phase.write_kind head) = head
head_of (Phase.write_a head) = head
head_of (Phase.write_b head) = head
head_of (Phase.publish head) = head
head_of phase = 0

-- While the consumer copies from a slot, and its local `tail` then.
abbrev pub copies : Reader → Bool
copies (Reader.copy_cycles tail) = true
copies (Reader.copy_kind tail out) = true
copies (Reader.copy_a tail out) = true
copies (Reader.copy_b tail out) = true
copies reader = false

abbrev pub tail_of : Reader → ℕ
tail_of (Reader.copy_cycles tail) = tail
tail_of (Reader.copy_kind tail out) = tail
tail_of (Reader.copy_a tail out) = tail
tail_of (Reader.copy_b tail out) = tail
tail_of reader = 0

abbrev pub slot : ℕ → Ring → ℕ → Slot
slot n r pos = r.slots (pos % n)

-- Reservation `pos` is published.
abbrev pub IsOut : ℕ → Ring → ℕ → Type 0
IsOut n r pos = (slot n r pos).seq ≡ seq_for (pos % 2 ^ 32)

-- The reservation `x.mine` of a context that writes: its local is that number, it is not published,
-- and the log has its record.
pub record IsWriter (n : ℕ) (w : World) (x : Context) (head : ℕ) : Type 0 where
  pub local : head ≡ x.mine % 2 ^ 32
  pub lower : w.taken ≤ x.mine
  pub upper : x.mine < w.reserved
  pub private : (slot n w.ring x.mine).seq ≢ seq_for head
  pub record_of : w.log x.mine ≡ x.call.rec

-- The fields that it has written, by its phase.
abbrev pub Written : Phase → Rec → Rec → Type 0
Written (Phase.write_kind head) rec out = out.cycles ≡ rec.cycles
Written (Phase.write_a head) rec out = (out.cycles ≡ rec.cycles) × (out.kind ≡ rec.kind)
Written (Phase.write_b head) rec out =
    (out.cycles ≡ rec.cycles) × (out.kind ≡ rec.kind) × (out.a ≡ rec.a)
Written (Phase.publish head) rec out = out ≡ rec
Written phase rec out = Unit

-- What a context knows at its phase.
pub record Writing (n : ℕ) (w : World) (x : Context) (head : ℕ) (phase : Phase) : Type 0 where
  pub writer : IsWriter n w x head
  pub written : Written phase x.call.rec (slot n w.ring x.mine).rec

abbrev pub IsContext : ℕ → World → Context → Phase → Type 0
IsContext n w x (Phase.load_tail head) = (head ≡ x.seen % 2 ^ 32) × (x.seen ≤ w.reserved)
IsContext n w x (Phase.cas head) =
    (head ≡ x.seen % 2 ^ 32) × (x.seen ≤ w.reserved) × (x.seen < w.taken + n)
IsContext n w x (Phase.write_cycles head) = Writing n w x head (Phase.write_cycles head)
IsContext n w x (Phase.write_kind head) = Writing n w x head (Phase.write_kind head)
IsContext n w x (Phase.write_a head) = Writing n w x head (Phase.write_a head)
IsContext n w x (Phase.write_b head) = Writing n w x head (Phase.write_b head)
IsContext n w x (Phase.publish head) = Writing n w x head (Phase.publish head)
IsContext n w x phase = Unit

-- What the consumer has copied, by its phase.
abbrev pub Copied : Reader → Rec → Type 0
Copied (Reader.copy_kind tail out) rec = out.cycles ≡ rec.cycles
Copied (Reader.copy_a tail out) rec = (out.cycles ≡ rec.cycles) × (out.kind ≡ rec.kind)
Copied (Reader.copy_b tail out) rec =
    (out.cycles ≡ rec.cycles) × (out.kind ≡ rec.kind) × (out.a ≡ rec.a)
Copied (Reader.set_tail tail out) rec = out ≡ rec
Copied reader rec = Unit

-- The consumer has found the oldest reservation published.
pub record Reading (n : ℕ) (w : World) (tail : ℕ) (reader : Reader) : Type 0 where
  pub local : tail ≡ w.taken % 2 ^ 32
  pub more : w.taken < w.reserved
  pub ready : IsOut n w.ring w.taken
  pub copied : Copied reader (w.log w.taken)

abbrev pub IsReader : ℕ → World → Reader → Type 0
IsReader n w Reader.rest = Unit
IsReader n w (Reader.get_head tail) = tail ≡ w.taken % 2 ^ 32
IsReader n w (Reader.get_seq tail) = (tail ≡ w.taken % 2 ^ 32) × (w.taken < w.reserved)
IsReader n w (Reader.copy_cycles tail) = Reading n w tail (Reader.copy_cycles tail)
IsReader n w (Reader.copy_kind tail out) = Reading n w tail (Reader.copy_kind tail out)
IsReader n w (Reader.copy_a tail out) = Reading n w tail (Reader.copy_a tail out)
IsReader n w (Reader.copy_b tail out) = Reading n w tail (Reader.copy_b tail out)
IsReader n w (Reader.set_tail tail out) = Reading n w tail (Reader.set_tail tail out)

-- A context that writes reservation `pos`.
abbrev pub Owner : World → ℕ → Type 0
Owner w pos = (i : ℕ) × (writes (w.contexts i).phase ≡ true) × ((w.contexts i).mine ≡ pos)

pub record Inv (n start : ℕ) (w : World) : Type 0 where
  pub head : w.ring.head ≡ w.reserved % 2 ^ 32
  pub tail : w.ring.tail ≡ w.taken % 2 ^ 32
  pub first : start ≤ w.taken
  pub order : w.taken ≤ w.reserved
  pub room : w.reserved ≤ w.taken + n
  pub out : w.given ≡ span w.log start (w.taken - start)
  -- In the window of the slots no reservation looks published that is not, with its record.
  pub fresh :
      (pos : ℕ)
      → w.taken ≤ pos
      → pos < w.taken + n
      → IsOut n w.ring pos
      → (pos < w.reserved) × ((slot n w.ring pos).rec ≡ w.log pos)
  pub context : (i : ℕ) → IsContext n w (w.contexts i) (w.contexts i).phase
  -- No two contexts write the same reservation.
  pub apart :
      (i j : ℕ)
      → writes (w.contexts i).phase ≡ true
      → writes (w.contexts j).phase ≡ true
      → (w.contexts i).mine ≡ (w.contexts j).mine
      → i ≡ j
  -- Every reservation is published or being written.
  pub covered : (pos : ℕ) → w.taken ≤ pos → pos < w.reserved → IsOut n w.ring pos ⊎ Owner w pos
  pub reader : IsReader n w w.reader
