-- ===== src/Drm/Dumb/Refused.antt =====
-- Why `create_dumb_buffer` does not return 0.
use embedded_linux_bsp.Common.{ℕ, ◌≡◌, true, ℤ, nonzero}
use embedded_linux_bsp.Common.World.{ok, err}
use embedded_linux_bsp.Common.World.Ensures.{
  Ensures, Answered, attempt-Ensures, pure-Ensures, >>=-Ensures,
}
use embedded_linux_bsp.Drm.Env.{Device, object_resource, Created, Mode}
use embedded_linux_bsp.Drm.Dumb.{
  DumbBuffer, no_buffer, create_dumb_buffer, add_framebuffer, prepare_map, map_buffer,
}

abbrev Any : {A : Type 0} → A → Type 0
Any _ = Unit

module _ (d : Device) (mode : Mode) where
  abbrev IsCreated : Created → Type 0
  IsCreated creq = (t : ℕ) × (d.create_dumb t mode.hdisplay mode.vdisplay 32 ≡ ok creq)

  -- The device refused, for this mode, a buffer, or to the buffer that it gave a framebuffer, an offset or a mapping.
  pub data IsRefused : Type 0 where
    no_memory : (t : ℕ) (e : ℤ) → d.create_dumb t mode.hdisplay mode.vdisplay 32 ≡ err e → IsRefused
    no_framebuffer :
        (creq : Created)
        → IsCreated creq
        → (t : ℕ) (e : ℤ)
        → d.add_fb t mode.hdisplay mode.vdisplay 24 32 creq.pitch creq.handle ≡ err e
        → IsRefused
    no_offset :
        (creq : Created)
        → IsCreated creq
        → (t : ℕ) (e : ℤ) → d.map_dumb t creq.handle ≡ err e
        → IsRefused
    no_mapping :
        (creq : Created)
        → IsCreated creq
        → (t offset : ℕ) → d.map_dumb t creq.handle ≡ ok offset
        → (t' : ℕ) (e : ℤ) → d.mmap t' creq.size offset ≡ err e
        → IsRefused

  abbrev pub Unmade : DumbBuffer × ℤ → Type 0
  Unmade r = nonzero r.1 ≡ true → IsRefused

  module _ (creq : Created) (created : IsCreated creq) where
    map_buffer-Unmade :
        (fb t offset : ℕ)
        → d.map_dumb t creq.handle ≡ ok offset
        → Ensures Unmade (
            map_buffer d offset (record no_buffer {
              handle = creq.handle;
              pitch = creq.pitch;
              size = creq.size;
              fb_id = fb;
            }))
    unfolding map_buffer
    map_buffer-Unmade fb t offset given =
        >>=-Ensures (Answered (λ t. d.mmap t creq.size offset)) _ (attempt-Ensures _) (elim [
          | err e ↦
              λ (t', q). pure-Ensures _ _ (λ bad. no_mapping creq created t offset given t' e q)
          | ok a ↦ λ _.
              >>=-Ensures Any _ (record { post = λ w r e. tt })
                λ _ _. pure-Ensures _ _ (λ bad. absurd (cc bad))
        ])

    prepare_map-Unmade :
        (fb : ℕ)
        → Ensures Unmade (
            prepare_map d (record no_buffer {
              handle = creq.handle;
              pitch = creq.pitch;
              size = creq.size;
              fb_id = fb;
            }))
    unfolding prepare_map
    prepare_map-Unmade fb =
        >>=-Ensures (Answered (λ t. d.map_dumb t creq.handle)) _ (attempt-Ensures _) (elim [
          | err e ↦ λ (t, q). pure-Ensures _ _ (λ bad. no_offset creq created t e q)
          | ok offset ↦ λ (t, q). map_buffer-Unmade fb t offset q
        ])

    add_framebuffer-Unmade : Ensures Unmade (
        add_framebuffer d mode.hdisplay mode.vdisplay
          (record no_buffer { handle = creq.handle; pitch = creq.pitch; size = creq.size }))
    unfolding add_framebuffer
    add_framebuffer-Unmade =
        >>=-Ensures
          (Answered (λ t. d.add_fb t mode.hdisplay mode.vdisplay 24 32 creq.pitch creq.handle)) _
          (attempt-Ensures _)
          (elim [
            | err e ↦ λ (t, q). pure-Ensures _ _ (λ bad. no_framebuffer creq created t e q)
            | ok fb ↦
                λ _. >>=-Ensures Any _ (record { post = λ w r e. tt }) λ _ _. prepare_map-Unmade fb
          ])

  -- If `create_dumb_buffer` returns another number than 0, the device refused one of its calls.
  pub create_dumb_buffer-Unmade :
      Ensures Unmade (create_dumb_buffer d mode.hdisplay mode.vdisplay no_buffer)
  unfolding create_dumb_buffer
  create_dumb_buffer-Unmade =
      >>=-Ensures (Answered (λ t. d.create_dumb t mode.hdisplay mode.vdisplay 32)) _
        (attempt-Ensures _)
        (elim [
          | err e ↦ λ (t, q). pure-Ensures _ _ (λ bad. no_memory t e q)
          | ok creq ↦ λ (t, q).
              >>=-Ensures Any _ (record { post = λ w r e. tt })
                λ _ _. add_framebuffer-Unmade creq (t, q)
        ])
