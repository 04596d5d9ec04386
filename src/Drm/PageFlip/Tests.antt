-- ===== src/Drm/PageFlip/Tests.antt =====
-- The page flip program on a small tablet.
use embedded_linux_bsp.Common.{
  false, none, ◌+◌, ap, ℕ, zero, suc, ◌≡◌, refl, some, List, [], ◌∷◌, pos, arith, ◌⊎◌,
}
use embedded_linux_bsp.Drm.Env.{Device, Created, Call, Session, object_resource}
use embedded_linux_bsp.Drm.Samples.{tablet, begin, target, shown_buffer, hidden_buffer}
use embedded_linux_bsp.Common.World.{Result, ok, err}
use embedded_linux_bsp.Drm.Dumb.Balance.{holding}
use embedded_linux_bsp.Drm.PageFlip.Release.{Apart}
use embedded_linux_bsp.Drm.PageFlip.Ending.{main-returns}
use embedded_linux_bsp.Drm.Dumb.Balance.{IsNumbered}
use embedded_linux_bsp.Drm.Dumb.Origin.{IsFresh}
use embedded_linux_bsp.Drm.PageFlip.{
  main, App, Wake, interrupted, not_ready, handled, color_at, flip_all,
}
use embedded_linux_bsp.Drm.PageFlip.Untorn.{main_no_tearing}
use embedded_linux_bsp.Drm.PageFlip.Screen.{screen_after}
use embedded_linux_bsp.Drm.PageFlip.Frames.{Delivers, Ends, frames, flip_all-frames}

abbrev wakes : List Wake
wakes = not_ready ∷ handled 1 (pos 0) ∷ interrupted ∷ handled 1 (pos 0) ∷ []

abbrev flips : ℕ → List Wake
flips zero = []
flips (suc n) = interrupted ∷ handled 1 (pos 0) ∷ flips n

flips-Delivers : (n : ℕ) → Delivers n (flips n)
flips-Delivers zero = tt
flips-Delivers (suc n) = (refl, flips-Delivers n)

flip_all-frames_example :
    (app : App) × (app.front ≡ 1)
    × Ends
        (some app)
        (Call.fill_color 2 2 1 (color_at 0) ∷ Call.set_crtc 2 ∷ frames 19 1 2 1 3 2)
        (flip_all tablet (flips 19) target shown_buffer hidden_buffer begin)
flip_all-frames_example =
    flip_all-frames tablet (λ t c f. refl) (flips 19) target shown_buffer hidden_buffer begin
      (λ t c f o. refl) (flips-Delivers 19)

two-Apart : Apart shown_buffer hidden_buffer
two-Apart = record {
  handles = λ e. absurd (omega (arith, e));
  framebuffers = λ e. absurd (omega (arith, e));
  maps = λ x y p q e. ground (arith, p, q, e);
}

abbrev both_held : Session
both_held = record begin { ledger = holding hidden_buffer (holding shown_buffer begin.ledger) }

abbrev handle_of : Result Created → ℕ
handle_of (ok c) = c.handle
handle_of (err _) = 0

-- A tablet that numbers everything by the moment.
abbrev numbering : Device
numbering = record tablet {
  create_dumb = λ t w h bpp. ok (record { handle = t + 1; pitch = 8; size = 8 });
  mmap = λ t size offset. ok (t + 4096);
}

numbering-IsNumbered : IsNumbered numbering
numbering-IsNumbered = record {
  handle_pos = λ t w h bpp c e. let q : t + 1 ≡ c.handle = ap handle_of e in omega (arith, q);
  fb_pos = λ t w h depth bpp pitch handle fb e. ground (arith, e);
}

numbering-IsFresh : IsFresh numbering
numbering-IsFresh = record {
  handles = λ t t' m n lt (_, _, c, q, e) (_, _, c', q', e') same.
      let r : t + 1 ≡ c.handle = ap handle_of q in
      let r' : t' + 1 ≡ c'.handle = ap handle_of q' in omega (arith, r, r', e, e', same, lt);
  framebuffers =
      λ t t' m n lt (_, _, _, _, q) (_, _, _, _, q') same. ground (arith, q, q', same, lt);
  addresses = λ t t' m n lt (_, _, q) (_, _, q') same. ground (arith, q, q', same, lt);
}

main-returns_example :
    let (ret, after) = main numbering (flips 19) begin in
    (ret ≡ ok none) ⊎ ((status : ℕ) × (ret ≡ ok (some status)) × (after.ledger ≡ begin.ledger))
main-returns_example =
    main-returns numbering numbering-IsNumbered numbering-IsFresh (flips 19) begin

main_no_tearing_example : (screen_after (main numbering wakes begin).1.out).torn ≡ false
main_no_tearing_example =
    main_no_tearing numbering wakes (omega arith, omega arith) numbering-IsNumbered
      numbering-IsFresh begin refl
