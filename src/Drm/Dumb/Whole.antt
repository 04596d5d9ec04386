-- ===== src/Drm/Dumb/Whole.antt =====
-- How `create_dumb_buffer` ends where only the creation can fail, and where the framebuffer is refused.
use embedded_linux_bsp.Common.{
  ℕ, ◌+◌, ◌≡◌, refl, sym, ◌∙◌, inl, inr, true, ℤ, pos, negsuc, nonzero, arith,
}
use embedded_linux_bsp.Common.World.{Result, Result-cases, ok, err, pure, ◌>>=◌, attempt, ask, hold}
use embedded_linux_bsp.Common.World.Ensures.{Succeeds, pure-Succeeds, >>=-Succeeds}
use embedded_linux_bsp.Common.Ledger.{acquire}
use embedded_linux_bsp.Drm.Env.{Device, Session, Object, gem, object_resource, Created, Call}
use embedded_linux_bsp.Drm.Dumb.{
  null, DumbBuffer, no_buffer, map_buffer, prepare_map, add_framebuffer, create_dumb_buffer,
}

-- Once a buffer is created, the calls that make it a mapped framebuffer do not fail.
pub record IsWhole (d : Device) : Type 0 where
  pub add_fb-ok :
      (t w h depth bpp pitch handle : ℕ)
      → (fb : ℕ) × (d.add_fb t w h depth bpp pitch handle ≡ ok fb)
  pub map_dumb-ok : (t handle : ℕ) → (offset : ℕ) × (d.map_dumb t handle ≡ ok offset)
  pub mmap-ok : (t size offset : ℕ) → (a : ℕ) × (d.mmap t size offset ≡ ok a)

-- A call that does not fail, seen by its caller.
attempt-Succeeds :
    {A : Type 0} (f : ℕ → Result A)
    → ((t : ℕ) → (a : A) × (f t ≡ ok a))
    → Succeeds {R = Object} {O = Call} (λ r. (a : A) × (r ≡ ok a)) (attempt (ask f))
unfolding attempt ask
attempt-Succeeds f h = record { returns = λ w. (f w.tick, refl, h w.tick) }

abbrev IsDone : DumbBuffer × ℤ → Type 0
IsDone r = r.1 ≡ pos 0

hold-Succeeds : (o : Object) → Succeeds {R = Object} {O = Call} (λ _. Unit) (hold o)
unfolding hold
hold-Succeeds o = record { returns = λ w. (tt, refl, tt) }

module _ (d : Device) where
  module _ (whole : IsWhole d) where
    map_buffer-Succeeds : (offset : ℕ) (b : DumbBuffer) → Succeeds IsDone (map_buffer d offset b)
    unfolding map_buffer
    map_buffer-Succeeds offset b =
        >>=-Succeeds (λ r. (a : ℕ) × (r ≡ ok a)) _
          (attempt-Succeeds _ (λ t. whole.mmap-ok t b.size offset))
          λ r (a, q).
            rw q (>>=-Succeeds (λ _. Unit) _ (hold-Succeeds _) λ _ _. pure-Succeeds _ _ refl)

    prepare_map-Succeeds : (b : DumbBuffer) → Succeeds IsDone (prepare_map d b)
    unfolding prepare_map
    prepare_map-Succeeds b =
        >>=-Succeeds (λ r. (a : ℕ) × (r ≡ ok a)) _
          (attempt-Succeeds _ (λ t. whole.map_dumb-ok t b.handle))
          λ r (a, q). rw q (map_buffer-Succeeds a b)

    add_framebuffer-Succeeds :
        (width height : ℕ) (b : DumbBuffer) → Succeeds IsDone (add_framebuffer d width height b)
    unfolding add_framebuffer
    add_framebuffer-Succeeds width height b =
        >>=-Succeeds (λ r. (a : ℕ) × (r ≡ ok a)) _
          (attempt-Succeeds _ (λ t. whole.add_fb-ok t width height 24 32 b.pitch b.handle))
          λ r (a, q).
            rw q (>>=-Succeeds (λ _. Unit) _ (hold-Succeeds _) λ _ _. prepare_map-Succeeds _)

  -- On such a device a failure leaves an empty buffer.
  pub create_dumb_buffer_whole :
      (width height : ℕ) (w : Session) (buf : DumbBuffer) (ret : ℤ)
      → IsWhole d
      → (create_dumb_buffer d width height no_buffer w).0 ≡ ok (buf, ret)
      → nonzero ret ≡ true
      → buf ≡ no_buffer
  unfolding create_dumb_buffer ◌>>=◌ attempt ask pure
  create_dumb_buffer_whole width height w buf ret whole e f =
      elim (Result-cases (d.create_dumb w.tick width height 32)) [
        | inl (x, q) ↦ cc (rw (q, create_dumb_buffer, ◌>>=◌, attempt) at e)
        | inr (c, q) ↦
            let (r, done, zero_ret) =
              (>>=-Succeeds (λ _. Unit) IsDone (hold-Succeeds (gem c.handle))
                  (λ _ _. add_framebuffer-Succeeds whole width height (record {
                    handle = c.handle;
                    pitch = c.pitch;
                    size = c.size;
                    map = null;
                    fb_id = 0;
                  }))).returns
                (record w { tick = w.tick + 1 }) in
            let same : (ok r) ≡ (ok (buf, ret)) =
              sym done ∙ (rw (q, create_dumb_buffer, ◌>>=◌, attempt) at e) in
            ground (arith, same, zero_ret, f)
      ]

  -- If the buffer is created and `drmModeAddFB` is refused, the function returns -1 and the buffer is still held.
  pub create_dumb_buffer_leaks :
      (width height : ℕ) (w : Session) (c : Created) (x : ℤ)
      → d.create_dumb w.tick width height 32 ≡ ok c
      → d.add_fb (w.tick + 1) width height 24 32 c.pitch c.handle ≡ err x
      → ((create_dumb_buffer d width height no_buffer w).0
          ≡ ok (
            record { handle = c.handle; pitch = c.pitch; size = c.size; map = null; fb_id = 0 },
            negsuc 0,
          ))
        × ((create_dumb_buffer d width height no_buffer w).1.ledger
            ≡ acquire (gem c.handle) w.ledger)
  unfolding create_dumb_buffer add_framebuffer ◌>>=◌ attempt ask hold pure
  create_dumb_buffer_leaks width height w c x q r =
      (rw (q, ◌>>=◌, attempt, r) refl, rw (q, ◌>>=◌, attempt, r) refl)
