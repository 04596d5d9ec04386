-- ===== src/Drm/PageFlip/Release.antt =====
-- What page_flip_minimal.c gives back.
use embedded_linux_bsp.Common.{
  ℕ, ◌<◌, ◌≡◌, ◌≢◌, refl, ◌∙◌, ap, inl, inr, ◌⊎◌, true, false, Bool, ltb, lt→ltb, some, none, List,
  if◌then◌else◌, arith,
}
use embedded_linux_bsp.Common.World.{
  Result-cases, ok, pure, ◌>>=◌, ◌>>◌, attempt, give_back, >>=-ok,
}
use embedded_linux_bsp.Common.Ledger.{Ledger, release, release-acquire}
use embedded_linux_bsp.Drm.Env.{
  Device, Action, Session, Object, object_resource, framebuffer, gem, mapping,
}
use embedded_linux_bsp.Drm.Dumb.{DumbBuffer, no_buffer, unmap, Map, null, map_failed, at}
use embedded_linux_bsp.Drm.Dumb.Balance.{holding, with_map, with_if}
use embedded_linux_bsp.Drm.Dumb.Other.{release-holding}
use embedded_linux_bsp.Drm.Connector.{Target}
use embedded_linux_bsp.Drm.PageFlip.Balance.{flip_all-IsBalanced}
use embedded_linux_bsp.Drm.PageFlip.{Wake, flip_all, destroy_dumb_buffer, destroy_both, show_flips}

-- What destroying a buffer does to what is held.
abbrev drop_map : Map → Ledger Object → Ledger Object
drop_map null l = l
drop_map map_failed l = l
drop_map (at a) l = release (mapping a) l

abbrev drop_if : Bool → Object → Ledger Object → Ledger Object
drop_if true o l = release o l
drop_if false o l = l

abbrev pub dropped : DumbBuffer → Ledger Object → Ledger Object
dropped b l =
    release (gem b.handle) (drop_if (ltb 0 b.fb_id) (framebuffer b.fb_id) (drop_map b.map l))

unmap-dropped :
    (m : Map) (w : Session) → unmap m w ≡ (ok tt, record w { ledger = drop_map m w.ledger })
unfolding unmap pure give_back
unmap-dropped null w = refl
unmap-dropped map_failed w = refl
unmap-dropped (at a) w = refl

if-dropped :
    (b : Bool) (o : Object) (w : Session)
    → (if b then give_back o else pure tt) w ≡ (ok tt, record w { ledger = drop_if b o w.ledger })
unfolding pure give_back
if-dropped true o w = refl
if-dropped false o w = refl

pub destroy-dropped :
    (b : DumbBuffer) (w : Session)
    → 0 < b.handle
    → destroy_dumb_buffer b w ≡ (ok no_buffer, record w { ledger = dropped b w.ledger })
unfolding destroy_dumb_buffer ◌>>=◌ give_back pure
destroy-dropped b w there =
    let t : ltb 0 b.handle ≡ true = lt→ltb 0 b.handle there in
    rw (t, destroy_dumb_buffer)
      (>>=-ok (unmap b.map) (λ _. rest₁) w w₁ tt (unmap-dropped b.map w)
        ∙ >>=-ok (if ltb 0 b.fb_id then give_back (framebuffer b.fb_id) else pure tt) (λ _. rest₂)
            w₁ w₂ tt (if-dropped (ltb 0 b.fb_id) (framebuffer b.fb_id) w₁)
        ∙ refl)
  where
    rest₂ : Action DumbBuffer
    rest₂ = do give_back (gem b.handle); pure no_buffer

    rest₁ : Action DumbBuffer
    rest₁ = (if ltb 0 b.fb_id then give_back (framebuffer b.fb_id) else pure tt) >> rest₂

    w₁ : Session
    w₁ = record w { ledger = drop_map b.map w.ledger }

    w₂ : Session
    w₂ = record w { ledger = drop_if (ltb 0 b.fb_id) (framebuffer b.fb_id) w₁.ledger }

dropped-map : (m : Map) (l : Ledger Object) → drop_map m (with_map m l) ≡ l
dropped-map null l = refl
dropped-map map_failed l = refl
dropped-map (at a) l = release-acquire (mapping a) l

dropped-if : (b : Bool) (o : Object) (l : Ledger Object) → drop_if b o (with_if b o l) ≡ l
dropped-if true o l = release-acquire o l
dropped-if false o l = refl

pub dropped-holding :
    (b : DumbBuffer) (l : Ledger Object) → 0 < b.handle → dropped b (holding b l) ≡ l
dropped-holding b l there =
    ap (λ x. release (gem b.handle) (drop_if (ltb 0 b.fb_id) (framebuffer b.fb_id) x))
      (dropped-map b.map _)
    ∙ ap (release (gem b.handle)) (dropped-if (ltb 0 b.fb_id) (framebuffer b.fb_id) _)
    ∙ ap (λ c. release (gem b.handle) (with_if c (gem b.handle) l)) (lt→ltb 0 b.handle there)
    ∙ release-acquire (gem b.handle) l

-- Two buffers of which nothing has the same identifier.
pub record Apart (a b : DumbBuffer) : Type 0 where
  pub handles : a.handle ≢ b.handle
  pub framebuffers : a.fb_id ≢ b.fb_id
  pub maps : (x y : ℕ) → a.map ≡ at x → b.map ≡ at y → x ≢ y

dropped-other :
    (a b : DumbBuffer) (l : Ledger Object)
    → Apart a b
    → dropped a (holding b l) ≡ holding b (dropped a l)
dropped-other a b l h =
    ap (λ x. release (gem a.handle) (drop_if (ltb 0 a.fb_id) (framebuffer a.fb_id) x))
      (map_first a.map h.maps)
    ∙ ap (release (gem a.handle)) (then_fb (ltb 0 a.fb_id))
    ∙ release-holding (gem a.handle) b _
        (record { no_map = λ x e. refl; no_fb = refl; no_gem = ground (arith, h.handles) })
  where
    map_first :
        (m : Map)
        → ((x y : ℕ) → m ≡ at x → b.map ≡ at y → x ≢ y)
        → drop_map m (holding b l) ≡ holding b (drop_map m l)
    map_first null maps = refl
    map_first map_failed maps = refl
    map_first (at x) maps = release-holding (mapping x) b l (record {
      no_map = λ y e. let n = maps x y refl e in ground (arith, n);
      no_fb = refl;
      no_gem = refl;
    })

    then_fb :
        (c : Bool)
        → drop_if c (framebuffer a.fb_id) (holding b (drop_map a.map l))
          ≡ holding b (drop_if c (framebuffer a.fb_id) (drop_map a.map l))
    then_fb true =
        release-holding (framebuffer a.fb_id) b _
          (record { no_map = λ x e. refl; no_fb = ground (arith, h.framebuffers); no_gem = refl })
    then_fb false = refl

-- Destroying both, the first one under the second.
pub destroy_both-ends :
    (d : Device) (b₀ b₁ : DumbBuffer) (l : Ledger Object) (w : Session)
    → 0 < b₀.handle
    → 0 < b₁.handle
    → Apart b₀ b₁
    → w.ledger ≡ holding b₁ (holding b₀ l)
    → ((destroy_both d b₀ b₁ w).0 ≡ ok true) × ((destroy_both d b₀ b₁ w).1.ledger ≡ l)
unfolding destroy_both ◌>>=◌ pure
destroy_both-ends d b₀ b₁ l w there₀ there₁ apart e =
    let p =
      >>=-ok (destroy_dumb_buffer b₀) (λ _. destroy_dumb_buffer b₁ >>= λ _. pure true) w w₁
        no_buffer (destroy-dropped b₀ w there₀)
      ∙ >>=-ok (destroy_dumb_buffer b₁) (λ _. pure true) w₁ w₂ no_buffer
          (destroy-dropped b₁ w₁ there₁) in
    (
      ap (λ r. r.0) p,
      ap (λ r. r.1.ledger) p
          ∙ ap (λ x. dropped b₁ (dropped b₀ x)) e
          ∙ ap (dropped b₁) (
              dropped-other b₀ b₁ (holding b₀ l) apart
              ∙ ap (holding b₁) (dropped-holding b₀ l there₀))
          ∙ dropped-holding b₁ l there₁,
    )
  where
    w₁ : Session
    w₁ = record w { ledger = dropped b₀ w.ledger }

    w₂ : Session
    w₂ = record w₁ { ledger = dropped b₁ w₁.ledger }

-- Two buffers are held, each with what its fields say, and nothing of one has the identifier of anything of the other.
-- Then showing the frames either still waits for the kernel; or it ends and gives back both with all that
-- they have, the first one first, whether all frames were shown, or a mode, a flip or a wait was refused.
pub show_flips-ends :
    (d : Device) (wakes : List Wake) (target : Target) (b₀ b₁ : DumbBuffer) (l : Ledger Object)
    (w : Session)
    → 0 < b₀.handle
    → 0 < b₁.handle
    → Apart b₀ b₁
    → w.ledger ≡ holding b₁ (holding b₀ l)
    → let (ret, after) = show_flips d wakes target b₀ b₁ w in
      (ret ≡ ok false) ⊎ ((ret ≡ ok true) × (after.ledger ≡ l))
unfolding show_flips ◌>>=◌ attempt pure
show_flips-ends d wakes target b₀ b₁ l w there₀ there₁ apart e =
    elim (Result-cases (flip_all d wakes target b₀ b₁ w).0) [
      | inl (x, q) ↦ rw (q, ◌>>=◌) (inr destroyed)
      | inr (none, q) ↦ rw (q, ◌>>=◌) (inl refl)
      | inr (some app, q) ↦ rw (q, ◌>>=◌) (inr destroyed)
    ]
  where
    shown : Session
    shown = (flip_all d wakes target b₀ b₁ w).1

    destroyed :
        ((destroy_both d b₀ b₁ shown).0 ≡ ok true) × ((destroy_both d b₀ b₁ shown).1.ledger ≡ l)
    destroyed =
        destroy_both-ends d b₀ b₁ l shown there₀ there₁ apart
          ((flip_all-IsBalanced d wakes target b₀ b₁).held w ∙ e)
