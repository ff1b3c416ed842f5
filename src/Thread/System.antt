-- ===== src/Thread/System.antt =====
-- Every run of events and of steps of the thread.
use embarch_outpost.Prelude.{
  ℕ, ◌^◌, ◌≤◌, ◌<◌, ◌≡◌, refl, Bool, true, false, List, [], ◌∷◌, some, length, if◌then◌else◌, ◌==◌,
  All, IsByte,
}
use embarch_outpost.Config.{Config, IsConfig}
use embarch_outpost.Ring.{Ring}
use embarch_outpost.Drain.{Drain, Image, send_header, send_body, build_records_frame}
use embarch_outpost.Drain.Losses.{IsDrain, IsLive}
use embarch_outpost.Drain.Build.{build_records_frame_lem}
use embarch_outpost.Drain.Stream.{sent_body-IsDrain, send_body_lem}
use embarch_outpost.Drain.Header.{send_header_decodes}
use embarch_outpost.Hooks.{Board}
use embarch_outpost.Hooks.Exclusion.{IsEvent}
use embarch_outpost.Hooks.Fire.{fire_adds}
use embarch_outpost.Thread.{
  Position, Thread, Action, event, thread, sent_frame, thread_step, system_run,
}

-- The strings of the image fit their bound, and are bytes.
pub record IsImage (c : Config) (image : Image) : Type 0 where
  pub version : length image.version ≤ c.build_id_max
  pub build_id : length image.build_id ≤ c.build_id_max
  pub chars : All IsByte image.version × All IsByte image.build_id

-- The thread's buffers have their sizes, and the ring is between calls.
pub record IsSystem (c : Config) (t : Thread) (r : Ring) : Type 0 where
  pub drain : IsDrain c t.drain
  pub live : IsLive c r

abbrev pub IsAction : Action → Type 0
IsAction (event now e) = IsEvent e × (now < 2 ^ 32)
IsAction (thread now) = Unit

either-IsSystem :
    (c : Config) (b : Bool) (x y : Thread × Ring)
    → IsSystem c x.0 x.1
    → IsSystem c y.0 y.1
    → (let z = if b then x else y in IsSystem c z.0 z.1)
either-IsSystem c true x y h k = h
either-IsSystem c false x y h k = k

module _ (crc32 : List ℕ → ℕ) (word : (bytes : List ℕ) → crc32 bytes < 2 ^ 32) (c : Config)
    (image : Image) (ok : IsConfig c) (strings : IsImage c image) where
  header-IsDrain : (d : Drain) → IsDrain c d → IsDrain c (send_header c image crc32 d)
  header-IsDrain d sized =
      let (chunk, sent, stuffed, decoded, seq, kept) =
        send_header_decodes crc32 word c image ok d sized strings.version strings.build_id
          strings.chars in
      kept

  sent_frame-IsSystem :
      (t : Thread) (r : Ring)
      → IsSystem c t r
      → (let (t', r') = sent_frame c image crc32 t (build_records_frame c t.drain r) in
          IsSystem c t' r')
  sent_frame-IsSystem t r v =
      let out = build_records_frame c t.drain r in
      let (recs, rest, f) = build_records_frame_lem c t.drain r ok v.drain v.live in
      let sent : IsDrain c (send_body crc32 out.0 out.1) =
        rw (send_body_lem crc32 c out.0 out.1 f.drain f.fits)
          (sent_body-IsDrain crc32 c out.1 _ f.drain) in
      either-IsSystem c (out.0 == 0) _ _ (record { drain = f.drain; live = f.live })
        (record { drain = sent; live = f.live })

  pub step-IsSystem :
      (now : ℕ) (p : Position) (t : Thread) (r : Ring)
      → IsSystem c t r
      → (let (t', r') = thread_step c image crc32 now p t r in IsSystem c t' r')
  unfolding thread_step
  step-IsSystem now Position.begin t r v = record {
    drain = header-IsDrain t.drain v.drain;
    live = v.live;
  }
  step-IsSystem now Position.top t r v =
      either-IsSystem c _ _ _ (record { drain = header-IsDrain t.drain v.drain; live = v.live })
        (record { drain = v.drain; live = v.live })
  step-IsSystem now Position.fill t r v =
      either-IsSystem c _ _ _ (record { drain = v.drain; live = v.live })
        (record { drain = v.drain; live = v.live })
  step-IsSystem now Position.filling t r v = record { drain = v.drain; live = v.live }
  step-IsSystem now Position.build t r v = sent_frame-IsSystem t r v
  step-IsSystem now Position.idle t r v = record { drain = v.drain; live = v.live }

  -- However events, in contexts that may not block, and steps of the drain thread from one wait to
  -- the next alternate, none interrupting another, from buffers of their sizes and a ring between
  -- calls with numbers that fit their types, every hook returns, and at the end the ring is valid,
  -- its numbers fit and the buffers have their sizes.
  pub system_run-IsSystem :
      (board : Board) (actions : List Action) (t : Thread) (r : Ring)
      → All IsAction actions
      → IsSystem c t r
      → (t' : Thread) × (r' : Ring) × (system_run c board image crc32 actions t r ≡ some (t', r'))
        × IsSystem c t' r'
  unfolding system_run
  system_run-IsSystem board [] t r h v = (t, r, refl, v)
  system_run-IsSystem board (event now e ∷ actions) t r h v =
      let (r', fired, live, q) = fire_adds c board now e r h.0.0 h.0.1 v.live in
      let (t', r'', ran, kept) =
        system_run-IsSystem board actions t r' h.1 (record { drain = v.drain; live = live }) in
      (t', r'', rw fired ran, kept)
  system_run-IsSystem board (thread now ∷ actions) t r h v =
      let (t', r') = thread_step c image crc32 now t.position t r in
      system_run-IsSystem board actions t' r' h.1 (step-IsSystem now t.position t r v)
