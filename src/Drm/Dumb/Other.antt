-- ===== src/Drm/Dumb/Other.antt =====
-- Giving back what is not of a buffer, under what the buffer holds.
use embedded_linux_bsp.Common.{ℕ, ◌≡◌, refl, ◌∙◌, ap, true, false, Bool, ltb}
use embedded_linux_bsp.Common.Ledger.{Ledger, release, release-acquire_other}
use embedded_linux_bsp.Drm.Env.{Object, object_resource, same_object, framebuffer, gem, mapping}
use embedded_linux_bsp.Drm.Dumb.{DumbBuffer, Map, null, map_failed, at}
use embedded_linux_bsp.Drm.Dumb.Balance.{holding, with_map, with_if}

-- An object that a buffer does not hold.
pub record IsOther (r : Object) (b : DumbBuffer) : Type 0 where
  pub no_map : (a : ℕ) → b.map ≡ at a → same_object r (mapping a) ≡ false
  pub no_fb : same_object r (framebuffer b.fb_id) ≡ false
  pub no_gem : same_object r (gem b.handle) ≡ false

release-with_map :
    (r : Object) (m : Map) (l : Ledger Object)
    → ((a : ℕ) → m ≡ at a → same_object r (mapping a) ≡ false)
    → release r (with_map m l) ≡ with_map m (release r l)
release-with_map r null l h = refl
release-with_map r map_failed l h = refl
release-with_map r (at a) l h = release-acquire_other r (mapping a) l (h a refl)

release-with_if :
    (r o : Object) (b : Bool) (l : Ledger Object)
    → same_object r o ≡ false
    → release r (with_if b o l) ≡ with_if b o (release r l)
release-with_if r o true l h = release-acquire_other r o l h
release-with_if r o false l h = refl

pub release-holding :
    (r : Object) (b : DumbBuffer) (l : Ledger Object)
    → IsOther r b
    → release r (holding b l) ≡ holding b (release r l)
release-holding r b l h =
    release-with_map r b.map _ h.no_map
    ∙ ap (with_map b.map) (
        release-with_if r (framebuffer b.fb_id) (ltb 0 b.fb_id) _ h.no_fb
        ∙ ap (with_if (ltb 0 b.fb_id) (framebuffer b.fb_id))
            (release-with_if r (gem b.handle) (ltb 0 b.handle) l h.no_gem))
