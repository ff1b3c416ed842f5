-- ===== src/Link/Delivery.antt =====
-- What goes over the line is what the drain thread has sent.
use embarch_outpost.Prelude.{
  ℕ, suc, ◌+◌, ◌-◌, ◌^◌, ◌≤◌, ◌<◌, ◌≡◌, arith, refl, sym, ap, ◌∙◌, inl, inr, Bool, true, false,
  List, [], ◌∷◌, ◌++◌, append-nil, length, drop,
}
use embarch_outpost.Config.{Config, IsConfig}
use embarch_outpost.Wire.{Rec}
use embarch_outpost.Ring.{Ring, ring_slots}
use embarch_outpost.Host.{decode_stream}
use embarch_outpost.Drain.{Drain, Image}
use embarch_outpost.Drain.Losses.{IsDrain}
use embarch_outpost.Hooks.{Board}
use embarch_outpost.Hooks.Exclusion.{IsEvent}
use embarch_outpost.Thread.Answered.{IsImage}
use embarch_outpost.Thread.Progress.{not_gap, lost_in, trace, concat, concat-snoc}
use embarch_outpost.Interleaving.{opening, Prompt}
use embarch_outpost.Interleaving.Invariant.{span}
use embarch_outpost.Interleaving.Losses.{total}
use embarch_outpost.Transport.{SemOps, IsSem, Sending, Outcome, Line, returned, uart_cb, shifted}
use embarch_outpost.Concurrent.{Deed, perform, run, boot, no_call}
use embarch_outpost.Concurrent.Runs.{AllDeeds, picks}
use embarch_outpost.Concurrent.Delivery.{InBatch, run_delivers}
use embarch_outpost.Link.{Linked, Act, thread_act, act, act_run, hand_over}
use embarch_outpost.Link.Serving.{
  Serves, Accepts, InTime, coming, on_wire, step_keeps, callback-Keeps, shift-Keeps,
}
use embarch_outpost.Link.Frames.{IsNew, OneMore-IsNew, desk_step-OneMore}

-- The cycle counts and the numbers of the events are uint32_t.
abbrev pub IsAct : Act → Type 0
IsAct (Act.event i now may_block e) = IsEvent e × (now < 2 ^ 32)
IsAct a = Unit

abbrev pub AllActs : List Act → Type 0
AllActs [] = Unit
AllActs (a ∷ acts) = IsAct a × AllActs acts

module _ (c : Config) (board : Board) (image : Image) (crc32 : List ℕ → ℕ) {S : Type 0}
    (ops : SemOps S) (ms : ℕ) where
  -- The deeds of the system in a run.
  abbrev with_deed : Sending → ℕ → List Deed → List Deed
  with_deed (returned outcome) now deeds = Deed.thread now ∷ deeds
  with_deed sending now deeds = deeds

  abbrev pub deeds_of : List Act → Linked S → List Deed
  deeds_of [] x = []
  deeds_of (Act.event i now may_block e ∷ acts) x =
      Deed.event i now may_block e
      ∷ deeds_of acts (act c board image crc32 ops ms (Act.event i now may_block e) x)
  deeds_of (Act.go_on i ∷ acts) x =
      Deed.go_on i ∷ deeds_of acts (act c board image crc32 ops ms (Act.go_on i) x)
  deeds_of (Act.thread now tx_ok ∷ acts) x =
      with_deed x.line.sending now
        (deeds_of acts (act c board image crc32 ops ms (Act.thread now tx_ok) x))
  deeds_of (Act.callback e ∷ acts) x =
      deeds_of acts (act c board image crc32 ops ms (Act.callback e) x)
  deeds_of (Act.shift ∷ acts) x = deeds_of acts (act c board image crc32 ops ms Act.shift x)

  with_deed-AllDeeds :
      (p : Sending) (now : ℕ) (deeds : List Deed)
      → AllDeeds deeds
      → AllDeeds (with_deed p now deeds)
  with_deed-AllDeeds (returned outcome) now deeds h = (tt, h)
  with_deed-AllDeeds _ now deeds h = h

  deeds_of-AllDeeds : (acts : List Act) (x : Linked S) → AllActs acts → AllDeeds (deeds_of acts x)
  deeds_of-AllDeeds [] x fine = tt
  deeds_of-AllDeeds (Act.event i now may_block e ∷ acts) x fine =
      (fine.0, deeds_of-AllDeeds acts _ fine.1)
  deeds_of-AllDeeds (Act.go_on i ∷ acts) x fine = (tt, deeds_of-AllDeeds acts _ fine.1)
  deeds_of-AllDeeds (Act.thread now tx_ok ∷ acts) x fine =
      with_deed-AllDeeds x.line.sending now _ (deeds_of-AllDeeds acts _ fine.1)
  deeds_of-AllDeeds (Act.callback e ∷ acts) x fine = deeds_of-AllDeeds acts _ fine.1
  deeds_of-AllDeeds (Act.shift ∷ acts) x fine = deeds_of-AllDeeds acts _ fine.1

  length-with_deed :
      (p : Sending) (now : ℕ) (deeds : List Deed)
      → length (with_deed p now deeds) ≤ suc (length deeds)
  length-with_deed (returned outcome) now deeds = omega arith
  length-with_deed _ now deeds = omega arith

  pub length-deeds_of : (acts : List Act) (x : Linked S) → length (deeds_of acts x) ≤ length acts
  length-deeds_of [] x = omega arith
  length-deeds_of (Act.event i now may_block e ∷ acts) x =
      omega (
        arith,
        length-deeds_of acts (act c board image crc32 ops ms (Act.event i now may_block e) x),
      )
  length-deeds_of (Act.go_on i ∷ acts) x =
      omega (arith, length-deeds_of acts (act c board image crc32 ops ms (Act.go_on i) x))
  length-deeds_of (Act.thread now tx_ok ∷ acts) x =
      let x' = act c board image crc32 ops ms (Act.thread now tx_ok) x in
      omega (arith, length-with_deed x.line.sending now (deeds_of acts x'), length-deeds_of acts x')
  length-deeds_of (Act.callback e ∷ acts) x =
      omega (arith, length-deeds_of acts (act c board image crc32 ops ms (Act.callback e) x))
  length-deeds_of (Act.shift ∷ acts) x =
      omega (arith, length-deeds_of acts (act c board image crc32 ops ms Act.shift x))

  with_deed-run :
      (p : Sending) (now : ℕ) (tx_ok : Bool) (x : Linked S) (deeds : List Deed)
      → run c board image crc32 (with_deed p now deeds) x.system
        ≡ run c board image crc32 deeds (thread_act c board image crc32 ops ms now tx_ok p x).system
  unfolding run
  with_deed-run (returned outcome) now tx_ok x deeds = refl
  with_deed-run _ now tx_ok x deeds = refl

  -- The system of the run.
  pub act_run-system :
      (acts : List Act) (x : Linked S)
      → (act_run c board image crc32 ops ms acts x).system
        ≡ run c board image crc32 (deeds_of acts x) x.system
  unfolding act_run act run
  act_run-system [] x = refl
  act_run-system (Act.event i now may_block e ∷ acts) x = act_run-system acts _
  act_run-system (Act.go_on i ∷ acts) x = act_run-system acts _
  act_run-system (Act.thread now tx_ok ∷ acts) x =
      let x' = thread_act c board image crc32 ops ms now tx_ok x.line.sending x in
      act_run-system acts x' ∙ sym (with_deed-run x.line.sending now tx_ok x (deeds_of acts x'))
  act_run-system (Act.callback e ∷ acts) x = act_run-system acts _
  act_run-system (Act.shift ∷ acts) x = act_run-system acts _

module _ (c : Config) (board : Board) (image : Image) (crc32 : List ℕ → ℕ) {S : Type 0}
    {ops : SemOps S} (sem : IsSem ops) (ms : ℕ) where
  -- What is on the wire or coming is what the thread has sent, and the transfers are in time.
  abbrev Handed : Linked S → Type 0
  Handed x =
      (on_wire x.line ≡ concat x.system.desk.drain.sent) × InTime ops ms x.line x.age x.line.sending

  hand_over-Handed :
      (outcome : Outcome) (l : Line S) (age : ℕ) (sent sent' new : List (List ℕ))
      → l.sending ≡ returned outcome
      → l.wire ++ [] ≡ concat sent
      → InTime ops ms l age (returned outcome)
      → IsNew sent sent' new
      → (let l' = hand_over c board image crc32 ops ms new l in
          (on_wire l' ≡ concat sent') × InTime ops ms l' age l'.sending)
  hand_over-Handed outcome l age sent sent' new e h free (inl (none_new, same)) =
      rw none_new
        (ap (λ p. l.wire ++ coming p l.frame l.todo) e ∙ h ∙ ap concat (sym same), rw e free)
  hand_over-Handed outcome l age sent sent' new e h free (inr (f, one, more)) =
      rw (one, e)
        (
          ap (λ bytes. bytes ++ f) (sym (append-nil l.wire) ∙ h)
              ∙ sym (ap concat more ∙ concat-snoc sent f),
          free,
        )

  thread-Handed :
      (now : ℕ) (tx_ok : Bool) (p : Sending) (x : Linked S)
      → x.line.sending ≡ p
      → on_wire x.line ≡ concat x.system.desk.drain.sent
      → InTime ops ms x.line x.age p
      → Accepts tx_ok p x.line.busy
      → (x.line.busy ≡ true → x.age < ms)
      → Handed (thread_act c board image crc32 ops ms now tx_ok p x)
  unfolding perform
  thread-Handed now tx_ok (returned outcome) x e h free ok time =
      let sent = x.system.desk.drain.sent in
      let sent' = (perform c board image crc32 (Deed.thread now) x.system).desk.drain.sent in
      hand_over-Handed outcome x.line x.age sent sent' (drop (length sent) sent') e
        (ap (λ p. x.line.wire ++ coming p x.line.frame x.line.todo) (sym e) ∙ h) free
        (OneMore-IsNew sent sent'
          (desk_step-OneMore crc32 c image now x.system.desk.stand x.system.desk x.system.world))
  thread-Handed now tx_ok p x e h free ok time =
      let (later, same) = step_keeps sem ms tx_ok p x.line x.age e free ok time in
      (same ∙ ap (λ q. x.line.wire ++ coming q x.line.frame x.line.todo) (sym e) ∙ h, later)

  pub act_run-Handed :
      (acts : List Act) (x : Linked S)
      → Serves c board image crc32 ops ms acts x
      → Handed x
      → Handed (act_run c board image crc32 ops ms acts x)
  unfolding act_run act perform
  act_run-Handed [] x fine h = h
  act_run-Handed (Act.event i now may_block e ∷ acts) x fine h = act_run-Handed acts _ fine.1 h
  act_run-Handed (Act.go_on i ∷ acts) x fine h = act_run-Handed acts _ fine.1 h
  act_run-Handed (Act.thread now tx_ok ∷ acts) x fine h =
      act_run-Handed acts (thread_act c board image crc32 ops ms now tx_ok x.line.sending x) fine.1
        (thread-Handed now tx_ok x.line.sending x refl h.0 h.1 fine.0.0 fine.0.1)
  act_run-Handed (Act.callback e ∷ acts) x fine h =
      let (later, same) = callback-Keeps sem ms e x h.1 fine.0 in
      act_run-Handed acts (record x { line = uart_cb ops ms e x.line }) fine.1 (same ∙ h.0, later)
  act_run-Handed (Act.shift ∷ acts) x fine h =
      let (later, same) = shift-Keeps sem ms x.line x.age h.1 in
      act_run-Handed acts (record x { line = shifted ops ms x.line.todo x.line }) fine.1
        (same ∙ h.0, later)

module _ (crc32 : List ℕ → ℕ) (word : (bytes : List ℕ) → crc32 bytes < 2 ^ 32) (c : Config)
    (ok : IsConfig c) (board : Board) (image : Image) (fits : IsImage c image) (d : Drain)
    (sized : IsDrain c d) (nothing : d.sent ≡ []) (uptime start : ℕ) (small : start < 2 ^ 32)
    (r : Ring) {S : Type 0} {ops : SemOps S} (sem : IsSem ops) (ms age : ℕ) (l : Line S)
    (outcome : Outcome) (free : l.sending ≡ returned outcome)
    (unused : (l.busy ≡ false) × (l.todo ≡ []) × (l.wire ≡ [])) (acts : List Act) where
  abbrev pub linked : Linked S
  linked = record { system = boot c uptime d start r; line = l; age = age }

  abbrev pub after : Linked S
  after = act_run c board image crc32 ops ms acts linked

  abbrev pub deeds : List Deed
  deeds = deeds_of c board image crc32 ops ms acts linked

  -- From a ring after `outpost_ring_init_at(start)`, for every start below 2 ^ 32, with nothing
  -- sent, nothing on the wire and no transfer in progress, no call of `transport_send` under way,
  -- buffers of their sizes, a configuration in range and strings of at most BUILD_ID_MAX bytes, and
  -- a semaphore that has nothing to take once it is reset, and something once it is given: however
  -- hooks are called in any number of contexts, the numbers and cycle counts of their events
  -- uint32_t, and however the contexts in `outpost_ring_put`, the drain thread, in `transport_send`
  -- or outside, the bytes that go out, and the driver's callbacks alternate, with each access to
  -- shared memory a step, and no head running 2 ^ 32 reservations round between a load of it and
  -- its compare-and-swap; where `uart_tx` accepts a frame just when no transfer is in progress, and
  -- the driver ends each transfer before the thread has waited for the timeout, says that it is
  -- done when all its bytes have gone out, and that it was aborted only after `uart_tx_abort`: the
  -- batch holds just the encodings of some records, and what the host decodes from the bytes on the
  -- wire and those that are coming, gap records left out, then the records in the batch, gap
  -- records left out, then those that the ring has not given, are the records of the reservations
  -- in their order; and the gap records decoded and in the batch report the losses of all accounts
  -- taken. The bytes that are coming are the frame that `uart_tx` has still to be called with, or
  -- the rest of the transfer: while the thread is not in `transport_send` there are none.
  pub act_run_delivers :
      AllActs acts
      → Prompt
          (ring_slots c.ring_bytes)
          (picks crc32 c board image deeds (boot c uptime d start r))
          (opening (ring_slots c.ring_bytes) start r no_call)
      → Serves c board image crc32 ops ms acts linked
      → (held : List Rec) × InBatch after.system.desk.drain held after.system.desk.stand
        × (let w = after.system.world in
            let ds = decode_stream crc32 (on_wire after.line) in
            (not_gap (trace ds) ++ (not_gap held ++ span w.log w.taken (w.reserved - w.taken))
              ≡ span w.log start (w.reserved - start))
            × (lost_in (trace ds) + lost_in held ≡ total w.reported))
  act_run_delivers fine prompt served =
      let (idle, rest, blank) = unused in
      let handed = act_run-Handed c board image crc32 sem ms acts linked served (
        (
          ap (λ p. l.wire ++ coming p l.frame l.todo) free
              ∙ append-nil l.wire
              ∙ blank
              ∙ sym (ap concat nothing),
          rw free (idle, rest),
        )) in
      let same = act_run-system c board image crc32 ops ms acts linked in
      rw (handed.0, same)
        (run_delivers crc32 word c ok board image fits d sized nothing uptime start small r deeds
          (deeds_of-AllDeeds c board image crc32 ops ms acts linked fine) prompt)
