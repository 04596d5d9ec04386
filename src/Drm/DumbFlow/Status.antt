-- ===== src/Drm/DumbFlow/Status.antt =====
-- What the exit status of the dumb buffer program tells.
use embedded_linux_bsp.Common.{ℕ, ◌+◌, ◌≡◌, refl, ◌∙◌, ap, ◌⊎◌, inl, inr, [], ◌∷◌, ◌++◌}
use embedded_linux_bsp.Common.World.{
  Result-cases, ok, World, pure, ◌>>=◌, attempt, ask, emit, hold, give_back,
}
use embedded_linux_bsp.Common.Ledger.{
  Ledger, acquire, release, release-acquire, release-acquire_other,
}
use embedded_linux_bsp.Drm.Env.{
  Device, Created, Object, card, gem, framebuffer, mapping, object_resource,
}
use embedded_linux_bsp.Drm.DumbFlow.{
  Filled, AddFb2, drm_format_xrgb8888, fill_and_add, map_created, main,
}

module _ (d : Device) (add_fb2 : AddFb2) where
  -- What a run between two states has made; the moments are those of its calls.
  pub record Made (w : World Object Filled) (after : World Object Filled) : Type 0 where
    pub buf : Created
    pub offset : ℕ
    pub map : ℕ
    pub fb : ℕ
    pub opened : d.open_card w.tick ≡ ok tt
    pub created : d.create_dumb (w.tick + 1) 800 480 32 ≡ ok buf
    pub prepared : d.map_dumb (w.tick + 1 + 1) buf.handle ≡ ok offset
    pub mapped : d.mmap (w.tick + 1 + 1 + 1) buf.size offset ≡ ok map
    pub added :
        add_fb2
          (w.tick + 1 + 1 + 1 + 1)
          800
          480
          drm_format_xrgb8888
          (buf.handle ∷ 0 ∷ 0 ∷ 0 ∷ [])
          (buf.pitch ∷ 0 ∷ 0 ∷ 0 ∷ [])
          (0 ∷ 0 ∷ 0 ∷ 0 ∷ [])
        ≡ ok fb
    pub white : after.out ≡ w.out ++ record { map = map; value = 255; size = buf.size } ∷ []
    pub left : after.ledger ≡ acquire (framebuffer fb) (acquire (gem buf.handle) w.ledger)

  -- The program exits with 1 or with 0; with 0 only when the kernel answered each of its five calls, each with what the
  -- ones before it answered. Then the whole mapping was filled with white, and the card and the mapping are given back,
  -- but the buffer and its framebuffer are not.
  pub main-Made :
      (w : World Object Filled)
      → ((main d add_fb2 w).0 ≡ ok 1)
        ⊎ (((main d add_fb2 w).0 ≡ ok 0) × Made w (main d add_fb2 w).1)
  unfolding main map_created fill_and_add ◌>>=◌ attempt ask emit hold give_back pure
  main-Made w = elim (Result-cases (d.open_card w.tick)) [
    | inl (e, q) ↦ rw (q, ◌>>=◌) (inl refl)
    | inr (_, o) ↦
        rw (o, ◌>>=◌)
          (elim (Result-cases (d.create_dumb (w.tick + 1) 800 480 32)) [
            | inl (e, q) ↦ rw (q, ◌>>=◌) (inl refl)
            | inr (buf, c) ↦
                rw (c, ◌>>=◌)
                  (elim (Result-cases (d.map_dumb (w.tick + 1 + 1) buf.handle)) [
                    | inl (e, q) ↦ rw (q, ◌>>=◌) (inl refl)
                    | inr (offset, p) ↦
                        rw (p, ◌>>=◌)
                          (elim (Result-cases (d.mmap (w.tick + 1 + 1 + 1) buf.size offset)) [
                            | inl (e, q) ↦ rw (q, ◌>>=◌) (inl refl)
                            | inr (map, m) ↦
                                rw (m, ◌>>=◌)
                                  (elim (Result-cases (
                                    add_fb2 (w.tick + 1 + 1 + 1 + 1) 800 480 drm_format_xrgb8888
                                      (buf.handle ∷ 0 ∷ 0 ∷ 0 ∷ []) (buf.pitch ∷ 0 ∷ 0 ∷ 0 ∷ [])
                                      (0 ∷ 0 ∷ 0 ∷ 0 ∷ []))) [
                                        | inl (e, q) ↦ rw (q, ◌>>=◌) (inl refl)
                                        | inr (fb, a) ↦
                                            rw (a, ◌>>=◌)
                                              (inr (
                                                refl,
                                                record {
                                                  buf = buf;
                                                  offset = offset;
                                                  map = map;
                                                  fb = fb;
                                                  opened = o;
                                                  created = c;
                                                  prepared = p;
                                                  mapped = m;
                                                  added = a;
                                                  white = refl;
                                                  left = left buf.handle map fb w.ledger;
                                                },
                                              ))
                                      ])
                          ])
                  ])
          ])
  ]
    where
      left :
          (handle map fb : ℕ) (l : Ledger Object)
          → release card (
              release (mapping map) (
                acquire
                  (framebuffer fb)
                  (acquire (mapping map) (acquire (gem handle) (acquire card l)))))
            ≡ acquire (framebuffer fb) (acquire (gem handle) l)
      left handle map fb l =
          ap (release card) (
            release-acquire_other (mapping map) (framebuffer fb) _ refl
            ∙ ap (acquire (framebuffer fb)) (release-acquire (mapping map) _))
          ∙ release-acquire_other card (framebuffer fb) _ refl
          ∙ ap (acquire (framebuffer fb)) (
              release-acquire_other card (gem handle) _ refl
              ∙ ap (acquire (gem handle)) (release-acquire card l))
