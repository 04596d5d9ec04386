-- ===== src/Drm/PageFlip/Pair.antt =====
-- The two buffers of page_flip_minimal.c, created one after the other.
use embedded_linux_bsp.Common.{
  ℕ, ◌<◌, ◌≤◌, ◌≡◌, ◌≢◌, ◌∙◌, ap, inl, inr, ◌⊎◌, false, nonzero, arith, ℤ,
}
use embedded_linux_bsp.Common.World.{Result, ok}
use embedded_linux_bsp.Common.Ledger.{Ledger}
use embedded_linux_bsp.Drm.Env.{Device, Session, Object, object_resource}
use embedded_linux_bsp.Drm.Dumb.{DumbBuffer, no_buffer}
use embedded_linux_bsp.Drm.Dumb.Balance.{IsNumbered, holding, Leaves, create_dumb_buffer-Leaves}
use embedded_linux_bsp.Drm.Dumb.Complete.{create_dumb_buffer-Ensures}
use embedded_linux_bsp.Drm.Dumb.Origin.{
  Between, IsHandle, IsFramebuffer, IsFresh, IsGiven, Makes, create_dumb_buffer-Makes,
}
use embedded_linux_bsp.Drm.PageFlip.Release.{Apart}
use embedded_linux_bsp.Drm.PageFlip.{create_dumb_buffer}

-- What was given before a moment and what was given from it on is not the same.
apart :
    (lo mid hi m n : ℕ) (P : ℕ → ℕ → Type 0)
    → ((t t' x y : ℕ) → t < t' → P t x → P t' y → x ≢ y)
    → (m ≡ 0) ⊎ Between lo mid (λ t. P t m)
    → (n ≡ 0) ⊎ Between mid hi (λ t. P t n)
    → 0 < m
    → m ≢ n
apart lo mid hi m n P differ (inl z) h there e = omega (arith, z, there)
apart lo mid hi m n P differ (inr g) (inl z) there e = omega (arith, z, there, e)
apart lo mid hi m n P differ (inr (t, _, before, p)) (inr (t', from, _, q)) there e =
    differ t t' m n (omega (arith, before, from)) p q e

pub given-Apart :
    (d : Device) (lo mid hi : ℕ) (a b : DumbBuffer)
    → IsFresh d
    → IsGiven d lo mid a
    → IsGiven d mid hi b
    → 0 < a.handle
    → 0 < a.fb_id
    → Apart a b
given-Apart d lo mid hi a b fresh g h there shown = record {
  handles = apart lo mid hi _ _ (IsHandle d) fresh.handles g.handle h.handle there;
  framebuffers =
      apart lo mid hi _ _ (IsFramebuffer d) fresh.framebuffers g.framebuffer h.framebuffer shown;
  maps = λ x y p q.
      let (t, _, before, r) = g.address x p in
      let (t', from, _, s) = h.address y q in
      fresh.addresses t t' x y (omega (arith, before, from)) r s;
}

-- What is known of a buffer that `create_dumb_buffer` returns: what is held for it, when its
-- identifiers were given, and that without an error it has its object and its framebuffer.
pub record Creation (d : Device) (l : Ledger Object) (w : Session)
    (run : Result (DumbBuffer × ℤ) × Session) : Type 0 where
  pub buf : DumbBuffer
  pub ret : ℤ
  pub returned : run.0 ≡ ok (buf, ret)
  pub held : run.1.ledger ≡ holding buf l
  pub given : IsGiven d w.tick run.1.tick buf
  pub later : w.tick ≤ run.1.tick
  pub sound : (buf ≡ no_buffer) ⊎ (0 < buf.handle)
  pub complete : nonzero ret ≡ false → (0 < buf.handle) × (0 < buf.fb_id)

pub creation :
    (d : Device) (width height : ℕ) (l : Ledger Object) (w : Session)
    → IsNumbered d
    → w.ledger ≡ l
    → Creation d l w (create_dumb_buffer d width height no_buffer w)
creation d width height l w numbered e = record {
  buf = m.buf;
  ret = m.ret;
  returned = m.returned;
  held = c.held ∙ ap (λ b. holding b l) same;
  given = m.given;
  later = m.later;
  sound = m.sound;
  complete = (create_dumb_buffer-Ensures d numbered width height).post w _ m.returned;
}
  where
    c : Leaves l (create_dumb_buffer d width height no_buffer w)
    c = create_dumb_buffer-Leaves d numbered l width height w e

    m : Makes d w.tick (create_dumb_buffer d width height no_buffer w)
    m = create_dumb_buffer-Makes d width height w numbered

    same : c.buf ≡ m.buf
    same = cc (c.returned, m.returned)
