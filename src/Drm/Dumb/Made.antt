-- ===== src/Drm/Dumb/Made.antt =====
-- When `create_dumb_buffer` returns, and what its buffer is made of.
use embedded_linux_bsp.Common.{ℕ, ◌≡◌, refl, false, ℤ, nonzero}
use embedded_linux_bsp.Common.World.{ok, err}
use embedded_linux_bsp.Common.World.Ensures.{
  Ensures, Answered, attempt-Ensures, pure-Ensures, >>=-Ensures, Returns, >>=-Returns,
  attempt-Returns, pure-Returns, hold-Returns,
}
use embedded_linux_bsp.Drm.Env.{Device, object_resource, Created, Mode}
use embedded_linux_bsp.Drm.Dumb.{
  DumbBuffer, no_buffer, create_dumb_buffer, add_framebuffer, prepare_map, map_buffer,
}

abbrev Any : {A : Type 0} → A → Type 0
Any _ = Unit

module _ (d : Device) where
  map_buffer-Returns : (offset : ℕ) (b : DumbBuffer) → Returns (map_buffer d offset b)
  unfolding map_buffer
  map_buffer-Returns offset b =
      >>=-Returns (attempt-Returns _)
        (elim [ err _ ↦ pure-Returns _ | ok a ↦ >>=-Returns (hold-Returns _) λ _. pure-Returns _ ])

  prepare_map-Returns : (b : DumbBuffer) → Returns (prepare_map d b)
  unfolding prepare_map
  prepare_map-Returns b =
      >>=-Returns (attempt-Returns _)
        (elim [ err _ ↦ pure-Returns _ | ok offset ↦ map_buffer-Returns offset b ])

  -- Whatever the device answers, `create_dumb_buffer` returns.
  pub create_dumb_buffer-Returns :
      (width height : ℕ) (b : DumbBuffer) → Returns (create_dumb_buffer d width height b)
  unfolding create_dumb_buffer add_framebuffer
  create_dumb_buffer-Returns width height b = >>=-Returns (attempt-Returns _) (elim [
    | err _ ↦ pure-Returns _
    | ok c ↦ >>=-Returns (hold-Returns _) λ _. >>=-Returns (attempt-Returns _) (elim [
      | err _ ↦ pure-Returns _
      | ok fb ↦ >>=-Returns (hold-Returns _) λ _. prepare_map-Returns _
    ])
  ])

  -- The buffer was created by the kernel with 32 bits for each pixel of the mode, and its framebuffer is one of the
  -- mode's size, with the pitch and the handle of that buffer.
  pub record IsBufferOf (mode : Mode) (b : DumbBuffer) : Type 0 where
    pub created_at : ℕ
    pub creq : Created
    pub created : d.create_dumb created_at mode.hdisplay mode.vdisplay 32 ≡ ok creq
    pub handle : b.handle ≡ creq.handle
    pub pitch : b.pitch ≡ creq.pitch
    pub added_at : ℕ
    pub added : d.add_fb added_at mode.hdisplay mode.vdisplay 24 32 b.pitch b.handle ≡ ok b.fb_id

  abbrev pub IsMadeFor : Mode → DumbBuffer × ℤ → Type 0
  IsMadeFor mode r = nonzero r.1 ≡ false → IsBufferOf mode r.0

  module _ (mode : Mode) where
    map_buffer-Made :
        (offset : ℕ) (b : DumbBuffer)
        → IsBufferOf mode b
        → Ensures (IsMadeFor mode) (map_buffer d offset b)
    unfolding map_buffer
    map_buffer-Made offset b h =
        >>=-Ensures Any _ (record { post = λ w r e. tt })
          (elim [
            | err _ ↦ λ _. pure-Ensures _ _ (λ q. cc)
            | ok a ↦ λ _.
                >>=-Ensures Any _ (record { post = λ w r e. tt })
                  λ _ _. pure-Ensures _ _ (λ q. record {
                    created_at = h.created_at;
                    creq = h.creq;
                    created = h.created;
                    handle = h.handle;
                    pitch = h.pitch;
                    added_at = h.added_at;
                    added = h.added;
                  })
          ])

    prepare_map-Made :
        (b : DumbBuffer) → IsBufferOf mode b → Ensures (IsMadeFor mode) (prepare_map d b)
    unfolding prepare_map
    prepare_map-Made b h =
        >>=-Ensures Any _ (record { post = λ w r e. tt })
          (elim [
            | err _ ↦ λ _. pure-Ensures _ _ (λ q. cc)
            | ok offset ↦ λ _. map_buffer-Made offset b h
          ])

    -- If `create_dumb_buffer` returns 0, the buffer is one of the mode.
    pub create_dumb_buffer-Made :
        Ensures (IsMadeFor mode) (create_dumb_buffer d mode.hdisplay mode.vdisplay no_buffer)
    unfolding create_dumb_buffer add_framebuffer
    create_dumb_buffer-Made =
        >>=-Ensures (Answered (λ t. d.create_dumb t mode.hdisplay mode.vdisplay 32)) _
          (attempt-Ensures _)
          (elim [
            | err _ ↦ λ _. pure-Ensures _ _ (λ q. cc)
            | ok c ↦ λ (t, q).
                >>=-Ensures Any _ (record { post = λ w r e. tt })
                  λ _ _.
                    >>=-Ensures
                      (Answered
                        (λ t. d.add_fb t mode.hdisplay mode.vdisplay 24 32 c.pitch c.handle))
                      _ (attempt-Ensures _)
                      (elim [
                        | err _ ↦ λ _. pure-Ensures _ _ (λ q. cc)
                        | ok fb ↦ λ (t', q').
                            >>=-Ensures Any _ (record { post = λ w r e. tt })
                              λ _ _. prepare_map-Made _ (record {
                                created_at = t;
                                creq = c;
                                created = q;
                                handle = refl;
                                pitch = refl;
                                added_at = t';
                                added = q';
                              })
                      ])
          ])
