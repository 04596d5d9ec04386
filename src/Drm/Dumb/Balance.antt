-- ===== src/Drm/Dumb/Balance.antt =====
-- What a buffer holds, from the creation to the destruction.
use embedded_linux_bsp.Common.{
  ℕ, ◌+◌, ◌<◌, ◌≡◌, refl, ◌∙◌, ap, inl, inr, true, false, Bool, if◌then◌else◌, ltb, lt→ltb, ℤ, pos,
  negsuc,
}
use embedded_linux_bsp.Common.World.{
  Result, Result-cases, ok, pure, ◌>>=◌, attempt, ask, hold, give_back,
}
use embedded_linux_bsp.Common.Ledger.{Ledger, acquire, release, release-acquire}
use embedded_linux_bsp.Drm.Env.{
  Device, Action, Session, Object, gem, framebuffer, mapping, object_resource, Created,
}
use embedded_linux_bsp.Drm.Dumb.{
  Map, null, map_failed, at, DumbBuffer, no_buffer, map_buffer, prepare_map, add_framebuffer,
  create_dumb_buffer, unmap, destroy_dumb_buffer,
}

-- The kernel gives out identifiers from 1 on.
pub record IsNumbered (d : Device) : Type 0 where
  pub handle_pos : (t w h bpp : ℕ) (c : Created) → d.create_dumb t w h bpp ≡ ok c → 0 < c.handle
  pub fb_pos :
      (t w h depth bpp pitch handle fb : ℕ) → d.add_fb t w h depth bpp pitch handle ≡ ok fb → 0 < fb

-- What a buffer with these fields holds, on top of what was held before.
abbrev pub with_map : Map → Ledger Object → Ledger Object
with_map null l = l
with_map map_failed l = l
with_map (at a) l = acquire (mapping a) l

abbrev pub with_if : Bool → Object → Ledger Object → Ledger Object
with_if true o l = acquire o l
with_if false o l = l

abbrev pub with_objects : ℕ → ℕ → Ledger Object → Ledger Object
with_objects handle fb l =
    with_if (ltb 0 fb) (framebuffer fb) (with_if (ltb 0 handle) (gem handle) l)

abbrev pub holding : DumbBuffer → Ledger Object → Ledger Object
holding b l = with_map b.map (with_objects b.handle b.fb_id l)

-- A run that returns a buffer, and holds for it what its fields say.
pub record Leaves (l : Ledger Object) (run : Result (DumbBuffer × ℤ) × Session) : Type 0 where
  pub buf : DumbBuffer
  pub ret : ℤ
  pub returned : run.0 ≡ ok (buf, ret)
  pub held : run.1.ledger ≡ holding buf l

abbrev blank : ℕ → ℕ → ℕ → ℕ → DumbBuffer
blank h p s f = record { handle = h; pitch = p; size = s; map = null; fb_id = f }

module _ (d : Device) (numbered : IsNumbered d) (l : Ledger Object) where
  map_buffer-Leaves :
      (offset h p s f : ℕ) (w : Session)
      → w.ledger ≡ with_objects h f l
      → Leaves l (map_buffer d offset (blank h p s f) w)
  unfolding map_buffer ◌>>=◌ attempt ask hold pure
  map_buffer-Leaves offset h p s f w e = elim (Result-cases (d.mmap w.tick s offset)) [
    | inl (x, q) ↦
        rw (q, map_buffer, ◌>>=◌, attempt)
          (record {
            buf = record (blank h p s f) { map = map_failed };
            ret = negsuc 0;
            returned = refl;
            held = e;
          })
    | inr (a, q) ↦
        rw (q, map_buffer, ◌>>=◌, attempt)
          (record {
            buf = record (blank h p s f) { map = at a };
            ret = pos 0;
            returned = refl;
            held = ap (acquire (mapping a)) e;
          })
  ]

  prepare_map-Leaves :
      (h p s f : ℕ) (w : Session)
      → w.ledger ≡ with_objects h f l
      → Leaves l (prepare_map d (blank h p s f) w)
  unfolding prepare_map ◌>>=◌ attempt ask pure
  prepare_map-Leaves h p s f w e = elim (Result-cases (d.map_dumb w.tick h)) [
    | inl (x, q) ↦
        rw (q, prepare_map, ◌>>=◌, attempt)
          (record { buf = blank h p s f; ret = negsuc 0; returned = refl; held = e })
    | inr (offset, q) ↦
        rw (q, prepare_map, ◌>>=◌, attempt)
          (map_buffer-Leaves offset h p s f (record w { tick = w.tick + 1 }) e)
  ]

  add_framebuffer-Leaves :
      (width height h p s : ℕ) (w : Session)
      → w.ledger ≡ with_objects h 0 l
      → Leaves l (add_framebuffer d width height (blank h p s 0) w)
  unfolding add_framebuffer ◌>>=◌ attempt ask hold pure
  add_framebuffer-Leaves width height h p s w e =
      elim (Result-cases (d.add_fb w.tick width height 24 32 p h)) [
        | inl (x, q) ↦
            rw (q, add_framebuffer, ◌>>=◌, attempt)
              (record { buf = blank h p s 0; ret = negsuc 0; returned = refl; held = e })
        | inr (f, q) ↦
            rw (q, add_framebuffer, ◌>>=◌, attempt)
              (prepare_map-Leaves h p s f
                (record w { tick = w.tick + 1; ledger = acquire (framebuffer f) w.ledger })
                (rw (lt→ltb 0 f (numbered.fb_pos w.tick width height 24 32 p h f q))
                  (ap (acquire (framebuffer f)) e)))
      ]

  -- On a device that numbers buffers and framebuffers from 1, `create_dumb_buffer` on an empty buffer returns, with 0 or
  -- an error, a buffer whose fields say exactly what is held for it on top of what was held before, on every branch.
  pub create_dumb_buffer-Leaves :
      (width height : ℕ) (w : Session)
      → w.ledger ≡ l
      → Leaves l (create_dumb_buffer d width height no_buffer w)
  unfolding create_dumb_buffer ◌>>=◌ attempt ask hold pure
  create_dumb_buffer-Leaves width height w e =
      elim (Result-cases (d.create_dumb w.tick width height 32)) [
        | inl (x, q) ↦
            rw (q, create_dumb_buffer, ◌>>=◌, attempt)
              (record { buf = no_buffer; ret = negsuc 0; returned = refl; held = e })
        | inr (c, q) ↦
            rw (q, create_dumb_buffer, ◌>>=◌, attempt)
              (add_framebuffer-Leaves width height c.handle c.pitch c.size
                (record w { tick = w.tick + 1; ledger = acquire (gem c.handle) w.ledger })
                (rw (lt→ltb 0 c.handle (numbered.handle_pos w.tick width height 32 c q))
                  (ap (acquire (gem c.handle)) e)))
      ]

-- A run that returns nothing of interest, and ends with `l` held.
pub record Ends (l : Ledger Object) (run : Result (Unit {0}) × Session) : Type 0 where
  pub fine : run.0 ≡ ok tt
  pub left : run.1.ledger ≡ l

pub unmap-Ends :
    (m : Map) (l : Ledger Object) (w : Session) → w.ledger ≡ with_map m l → Ends l (unmap m w)
unfolding unmap pure give_back
unmap-Ends null l w e = record { fine = refl; left = e }
unmap-Ends map_failed l w e = record { fine = refl; left = e }
unmap-Ends (at a) l w e = record {
  fine = refl;
  left = ap (release (mapping a)) e ∙ release-acquire (mapping a) l;
}

drop_if :
    (b : Bool) (o : Object) (l : Ledger Object) (w : Session)
    → w.ledger ≡ with_if b o l
    → Ends l ((if b then give_back o else pure tt) w)
unfolding give_back pure
drop_if true o l w e = record { fine = refl; left = ap (release o) e ∙ release-acquire o l }
drop_if false o l w e = record { fine = refl; left = e }

then-Ends :
    (m k : Action (Unit {0})) (l l' : Ledger Object) (w : Session)
    → Ends l (m w)
    → ((w' : Session) → w'.ledger ≡ l → Ends l' (k w'))
    → Ends l' ((m >>= λ _. k) w)
unfolding ◌>>=◌
then-Ends m k l l' w first rest = rw (first.fine, ◌>>=◌) (rest (m w).1 first.left)

-- If what the fields of a buffer say is held on top of `l`, then `destroy_dumb_buffer` returns and leaves `l`: it
-- gives back the mapping, the framebuffer and the buffer, each if it is there, in an order that fits.
pub destroy_dumb_buffer-Ends :
    (b : DumbBuffer) (l : Ledger Object) (w : Session)
    → w.ledger ≡ holding b l
    → Ends l (destroy_dumb_buffer b w)
unfolding destroy_dumb_buffer
destroy_dumb_buffer-Ends b l w e =
    then-Ends _ _ _ l w (unmap-Ends b.map (with_objects b.handle b.fb_id l) w e) λ w₁ e₁.
      then-Ends _ _ _ l w₁
        (drop_if (ltb 0 b.fb_id) (framebuffer b.fb_id) (with_if (ltb 0 b.handle) (gem b.handle) l)
          w₁ e₁)
        λ w₂ e₂. drop_if (ltb 0 b.handle) (gem b.handle) l w₂ e₂
