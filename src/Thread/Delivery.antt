-- ===== src/Thread/Delivery.antt =====
-- The whole way of a record: from a hook through the ring, the frames and the stream to the host.
use embarch_outpost.Prelude.{
  ==_eq, ==_ne, ℕ, ◌+◌, ◌^◌, ◌<◌, ◌≡◌, refl, ap, ◌∙◌, Bool, true, false, List, [], ◌∷◌, ◌++◌,
  append_assoc, append-nil, some, length, length-append, if◌then◌else◌, All, arith,
}
use native.Mathlib.Decide.{ℕ_discrete}
use embarch_outpost.Config.{Config, IsConfig}
use embarch_outpost.Wire.{Rec}
use embarch_outpost.Host.{Decoded, decode_stream}
use embarch_outpost.Host.Split.{decode_stream-IsClosed}
use embarch_outpost.Ring.{Ring, ring_slots}
use embarch_outpost.Ring.Refine.{view}
use embarch_outpost.Ring.Queue.{Queue}
use embarch_outpost.Drain.{Image, build_records_frame, send_header}
use embarch_outpost.Hooks.{Board, Event, hook, fire}
use embarch_outpost.Hooks.Exclusion.{IsEvent}
use embarch_outpost.Hooks.Shown.{queue_put}
use embarch_outpost.Hooks.Fire.{fire_adds}
use embarch_outpost.Thread.{
  Position, Thread, Action, event, thread, sent_frame, thread_step, system_run,
}
use embarch_outpost.Thread.System.{IsImage, IsSystem, IsAction, step-IsSystem}
use embarch_outpost.Thread.Progress.{
  not_gap, lost_in, trace, concat, not_gap-append, lost_in-append, trace-append, IsHooked, Progress,
  still, header-Progress, rest-IsHooked, none-Progress, frame-Progress,
}
use embarch_outpost.Thread.Books.{
  Kept, all_gone, offer, offers, delivered, reported, IsAccounted, queue_put-Kept,
}

-- What a step of the thread comes to.
abbrev StepOutcome : (List ℕ → ℕ) → Config → Thread → Ring → Thread × Ring → Type 0
StepOutcome crc32 c t r z =
    (es : List Decoded) × Progress crc32 t.drain z.0.drain (view (ring_slots c.ring_bytes) r)
      (view (ring_slots c.ring_bytes) z.1) es
    × All IsHooked (view (ring_slots c.ring_bytes) z.1).queued

either-StepOutcome :
    (crc32 : List ℕ → ℕ) (c : Config) (t : Thread) (r : Ring) (b : Bool) (x y : Thread × Ring)
    → StepOutcome crc32 c t r x
    → StepOutcome crc32 c t r y
    → StepOutcome crc32 c t r (if b then x else y)
either-StepOutcome crc32 c t r true x y h k = h
either-StepOutcome crc32 c t r false x y h k = k

module _ (crc32 : List ℕ → ℕ) (word : (bytes : List ℕ) → crc32 bytes < 2 ^ 32) (c : Config)
    (image : Image) (ok : IsConfig c) (strings : IsImage c image) where
  module _ (t : Thread) (r : Ring) (v : IsSystem c t r)
      (hooked : All IsHooked (view (ring_slots c.ring_bytes) r).queued) where
    header_step :
        (last : ℕ) (p : Position)
        → StepOutcome crc32 c t r (
          record { drain = send_header c image crc32 t.drain; last_header = last; position = p },
          r,
        )
    header_step last p =
        let (e, progress) =
          header-Progress crc32 word c ok t.drain v.drain image strings.version strings.build_id
            strings.chars (view (ring_slots c.ring_bytes) r) in
        (e ∷ [], progress, hooked)

    quiet_step :
        (last : ℕ) (p : Position)
        → StepOutcome crc32 c t r (record { drain = t.drain; last_header = last; position = p }, r)
    quiet_step last p = ([], still crc32 t.drain (view (ring_slots c.ring_bytes) r), hooked)

    frame_step :
        StepOutcome crc32 c t r (sent_frame c image crc32 t (build_records_frame c t.drain r))
    frame_step =
        let out = build_records_frame c t.drain r in
        let rest = rest-IsHooked crc32 word c ok t.drain v.drain r v.live hooked in
        elim (ℕ_discrete out.0 0) [
          | yes e ↦
              rw (==_eq out.0 0 e)
                ([], none-Progress crc32 word c ok t.drain v.drain r v.live hooked e, rest)
          | no more ↦
              let (e, progress) =
                frame-Progress crc32 word c ok t.drain v.drain r v.live hooked more in
              rw (==_ne out.0 0 more) (e ∷ [], progress, rest)
        ]

    step_lem :
        (now : ℕ) (p : Position) → StepOutcome crc32 c t r (thread_step c image crc32 now p t r)
    unfolding thread_step
    step_lem now Position.begin = header_step now Position.top
    step_lem now Position.top =
        either-StepOutcome crc32 c t r _ _ _ (header_step now Position.fill)
          (quiet_step t.last_header Position.fill)
    step_lem now Position.fill =
        either-StepOutcome crc32 c t r _ _ _ (quiet_step t.last_header Position.filling)
          (quiet_step t.last_header Position.build)
    step_lem now Position.filling = quiet_step t.last_header Position.build
    step_lem now Position.build = frame_step
    step_lem now Position.idle = quiet_step t.last_header Position.top

  account_step :
      (now : ℕ) (past : List Rec) (t : Thread) (r : Ring) (ds : List Decoded)
      → IsAccounted crc32 c past t r ds
      → (let (t', r') = thread_step c image crc32 now t.position t r in
          (ds' : List Decoded) × IsAccounted crc32 c past t' r' ds')
  account_step now past t r ds a =
      let z = thread_step c image crc32 now t.position t r in
      let (es, p, hooked) = step_lem t r a.system a.hooked now t.position in
      let q' = (view (ring_slots c.ring_bytes) z.1).queued in
      let same : delivered (ds ++ es) ++ q'
          ≡ delivered ds ++ (view (ring_slots c.ring_bytes) r).queued =
        ap (λ l. not_gap l ++ q') (trace-append ds es)
        ∙ ap (λ l. l ++ q') (not_gap-append (trace ds) (trace es))
        ∙ append_assoc (delivered ds) (delivered es) q'
        ∙ ap (λ l. delivered ds ++ l) p.moved in
      (
        ds ++ es,
        record {
          system = step-IsSystem crc32 word c image ok strings now t.position t r a.system;
          hooked = hooked;
          closed = p.closed ds a.closed;
          order = rw same a.order;
          balance = omega (
            arith,
            ap length same,
            ap lost_in (trace-append ds es),
            lost_in-append (trace ds) (trace es),
            p.lost,
            a.balance,
          );
        },
      )

module _ (crc32 : List ℕ → ℕ) (c : Config) (board : Board) where
  account_event :
      (now : ℕ) (e : Event) (past : List Rec) (t : Thread) (r : Ring) (ds : List Decoded)
      → IsEvent e
      → now < 2 ^ 32
      → length (past ++ offer now (hook c board e)) < 2 ^ 32
      → IsAccounted crc32 c past t r ds
      → (r' : Ring) × (fire c board (ring_slots c.ring_bytes) now false e r ≡ some r')
        × IsAccounted crc32 c (past ++ offer now (hook c board e)) t r' ds
  account_event now e past t r ds h small few a =
      let (r', fired, live, q) = fire_adds c board now e r h small a.system.live in
      let (hooked, order, balance) = by_queue (view n r') q in
      (
        r',
        fired,
        record {
          system = record { drain = a.system.drain; live = live };
          hooked = hooked;
          closed = a.closed;
          order = order;
          balance = balance;
        },
      )
    where
      n : ℕ
      n = ring_slots c.ring_bytes

      by_queue :
          (q : Queue)
          → q
            ≡ queue_put
                (ring_slots c.ring_bytes)
                now
                (hook c board e)
                (view (ring_slots c.ring_bytes) r)
          → All IsHooked q.queued
            × Kept (delivered ds ++ q.queued) (past ++ offer now (hook c board e))
            × (length (delivered ds ++ q.queued) + reported ds + q.dropped
                ≡ length (past ++ offer now (hook c board e)))
      by_queue q eq = rw eq (
          queue_put-Kept (ring_slots c.ring_bytes) now (hook c board e)
            (view (ring_slots c.ring_bytes) r) (delivered ds) past (reported ds) a.hooked a.order
            a.balance few)

module _ (crc32 : List ℕ → ℕ) (word : (bytes : List ℕ) → crc32 bytes < 2 ^ 32) (c : Config)
    (image : Image) (ok : IsConfig c) (strings : IsImage c image) (board : Board) where
  account_run :
      (actions : List Action) (past : List Rec) (t : Thread) (r : Ring) (ds : List Decoded)
      → All IsAction actions
      → length (past ++ offers c board actions) < 2 ^ 32
      → IsAccounted crc32 c past t r ds
      → (t' : Thread) × (r' : Ring) × (ds' : List Decoded) × (system_run c board image crc32 actions
            t r
          ≡ some (t', r'))
        × IsAccounted crc32 c (past ++ offers c board actions) t' r' ds'
  unfolding system_run
  account_run [] past t r ds h few a = (t, r, ds, refl, rw (append-nil past) a)
  account_run (event now e ∷ actions) past t r ds h few a =
      let new = offer now (hook c board e) in
      let assoc = append_assoc past new (offers c board actions) in
      let (r', fired, a') =
        account_event crc32 c board now e past t r ds h.0.0 h.0.1
          (omega
            (arith, ap length assoc, few, length-append (past ++ new) (offers c board actions)))
          a in
      let (t', r'', ds', ran, done) =
        account_run actions (past ++ new) t r' ds h.1 (omega (arith, ap length assoc, few)) a' in
      (t', r'', ds', rw fired ran, rw assoc at done)
  account_run (thread now ∷ actions) past t r ds h few a =
      let (t', r') = thread_step c image crc32 now t.position t r in
      let (ds', a') = account_step crc32 word c image ok strings now past t r ds a in
      account_run actions past t' r' ds' h.1 few a'

  -- From an empty ring, an empty stream and buffers of their sizes, while hooks offer fewer than 2
  -- ^ 32 records: however events, in contexts that may not block, and steps of the drain thread
  -- from one wait to the next alternate, none interrupting another, every hook returns; what the
  -- host decodes from the bytes sent, gap records left out, and then the records still in the ring,
  -- are the records that the hooks offered, in their order, without those that were lost; and those
  -- are as many as the gap records report, and the account in the ring that is still to be
  -- reported.
  pub system_delivers :
      (actions : List Action) (t : Thread) (r : Ring)
      → All IsAction actions
      → length (offers c board actions) < 2 ^ 32
      → IsSystem c t r
      → t.drain.sent ≡ []
      → (view (ring_slots c.ring_bytes) r).queued ≡ []
      → r.gap_dropped ≡ 0
      → (t' : Thread) × (r' : Ring) × (system_run c board image crc32 actions t r ≡ some (t', r'))
        × (let ds = decode_stream crc32 (concat t'.drain.sent) in
            let all = delivered ds ++ (view (ring_slots c.ring_bytes) r').queued in
            Kept all (offers c board actions)
            × (length all + reported ds + r'.gap_dropped ≡ length (offers c board actions)))
  system_delivers actions t r h few v silent empty none_lost =
      let start : IsAccounted crc32 c [] t r [] = record {
        system = v;
        hooked = rw empty tt;
        closed = λ rest. rw silent refl;
        order = rw empty all_gone;
        balance = rw (empty, none_lost) (omega arith);
      } in
      let (t', r', ds, ran, a) = account_run actions [] t r [] h few start in
      (
        t',
        r',
        ran,
        rw (decode_stream-IsClosed crc32 (concat t'.drain.sent) ds a.closed) (a.order, a.balance),
      )
