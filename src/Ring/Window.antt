-- ===== src/Ring/Window.antt =====
-- The slots between `tail` and `head`: their records, and that they are published.
use embarch_outpost.Prelude.{
  ℕ, zero, suc, ◌%◌, ◌^◌, ◌<◌, ◌≡◌, ◌≢◌, refl, ap, ap₂, ◌∙◌, arith, ==_ne, ==_refl, List, [], ◌∷◌,
  ◌++◌, length,
}
use embarch_outpost.Wire.{Rec}
use embarch_outpost.Ring.{Slot, update, add32, seq_for}
use embarch_outpost.Ring.Config.{IsSlots}
use embarch_outpost.Ring.Seq.{index_ne}

-- The records of `count` reservations from `tail` on.
abbrev pub window : ℕ → (ℕ → Slot) → ℕ → ℕ → List Rec
window n slots tail zero = []
window n slots tail (suc count) = (slots (tail % n)).rec ∷ window n slots (add32 tail 1) count

abbrev pub Published : ℕ → (ℕ → Slot) → ℕ → ℕ → Type 0
Published n slots tail zero = Unit
Published n slots tail (suc count) =
    ((slots (tail % n)).seq ≡ seq_for tail) × Published n slots (add32 tail 1) count

pub length-window :
    (n : ℕ) (slots : ℕ → Slot) (tail count : ℕ) → length (window n slots tail count) ≡ count
length-window n slots tail zero = refl
length-window n slots tail (suc count) = ap suc (length-window n slots (add32 tail 1) count)

pub add32-zero : (t : ℕ) → t < 2 ^ 32 → add32 t 0 ≡ t
add32-zero t h = omega arith

pub add32-suc : (t k : ℕ) → add32 t (suc k) ≡ add32 (add32 t 1) k
add32-suc t k = omega arith

update_self : (slots : ℕ → Slot) (i : ℕ) (slot : Slot) → update slots i slot i ≡ slot
update_self slots i slot = rw (==_refl i)

update_ne : (slots : ℕ → Slot) (i j : ℕ) (slot : Slot) → i ≢ j → update slots i slot j ≡ slots j
update_ne slots i j slot h = rw (==_ne i j h)

module _ {n : ℕ} (v : IsSlots n) (slot : Slot) (pos : ℕ) where
  -- The reservation after a window goes to a slot outside it.
  apart : (tail count : ℕ) → suc count < n → pos ≡ add32 tail (suc count) → pos % n ≢ tail % n
  apart tail count room e = rw e (index_ne v tail (suc count) (omega arith) room)

  update_first :
      (slots : ℕ → Slot) (tail : ℕ)
      → tail < 2 ^ 32
      → pos ≡ add32 tail 0
      → update slots (pos % n) slot (tail % n) ≡ slot
  update_first slots tail small e =
      rw (e, add32-zero tail small) (update_self slots (tail % n) slot)

  -- So publishing it adds it at the end.
  pub window-update :
      (slots : ℕ → Slot) (tail count : ℕ)
      → tail < 2 ^ 32
      → count < n
      → pos ≡ add32 tail count
      → window n (update slots (pos % n) slot) tail (suc count)
        ≡ window n slots tail count ++ slot.rec ∷ []
  window-update slots tail zero small room e =
      ap (λ (s : Slot). s.rec ∷ []) (update_first slots tail small e)
  window-update slots tail (suc count) small room e =
      ap₂ (λ (s : Slot) l. s.rec ∷ l)
        (update_ne slots (pos % n) (tail % n) slot (apart tail count room e))
        (window-update slots (add32 tail 1) count (omega arith) (omega arith)
          (e ∙ add32-suc tail count))

  pub Published-update :
      (slots : ℕ → Slot) (tail count : ℕ)
      → tail < 2 ^ 32
      → count < n
      → pos ≡ add32 tail count
      → slot.seq ≡ seq_for pos
      → Published n slots tail count
      → Published n (update slots (pos % n) slot) tail (suc count)
  Published-update slots tail zero small room e s p = (
    ap (λ (x : Slot). x.seq) (update_first slots tail small e)
        ∙ s
        ∙ ap seq_for (e ∙ add32-zero tail small),
    tt,
  )
  Published-update slots tail (suc count) small room e s p = (
    ap (λ (x : Slot). x.seq) (update_ne slots (pos % n) (tail % n) slot (apart tail count room e))
        ∙ p.0,
    Published-update slots (add32 tail 1) count (omega arith) (omega arith)
        (e ∙ add32-suc tail count) s p.1,
  )
