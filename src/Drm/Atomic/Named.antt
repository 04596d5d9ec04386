-- ===== src/Drm/Atomic/Named.antt =====
-- The property numbers that atomic_modeset_minimal.c loads.
use embedded_linux_bsp.Common.{ℕ}
use embedded_linux_bsp.Common.World.Ensures.{Ensures, pure-Ensures, >>=-Ensures, Returns, returning}
use embedded_linux_bsp.Drm.Env.{Device, ObjectType, object_resource}
use embedded_linux_bsp.Drm.Atomic.Lookup.{IsNamed, get_prop_id-Ensures}
use embedded_linux_bsp.Drm.Atomic.Request.{get_prop_id-Succeeds}
use embedded_linux_bsp.Drm.Atomic.{ObjectProps, load_props}

-- Each number is 0, or that of a property with the name that its field is for.
pub record IsNamedBy (d : Device) (p : ObjectProps) : Type 0 where
  pub crtc_id : IsNamed d "CRTC_ID" p.crtc_id
  pub mode_id : IsNamed d "MODE_ID" p.mode_id
  pub active : IsNamed d "ACTIVE" p.active
  pub fb_id : IsNamed d "FB_ID" p.fb_id
  pub src_x : IsNamed d "SRC_X" p.src_x
  pub src_y : IsNamed d "SRC_Y" p.src_y
  pub src_w : IsNamed d "SRC_W" p.src_w
  pub src_h : IsNamed d "SRC_H" p.src_h
  pub crtc_x : IsNamed d "CRTC_X" p.crtc_x
  pub crtc_y : IsNamed d "CRTC_Y" p.crtc_y
  pub crtc_w : IsNamed d "CRTC_W" p.crtc_w
  pub crtc_h : IsNamed d "CRTC_H" p.crtc_h

abbrev pub Any : {A : Type 0} → A → Type 0
Any _ = Unit

module _ (d : Device) where
  pub load_props-Ensures : (a b c : ℕ) → Ensures (IsNamedBy d) (load_props d a b c)
  unfolding load_props
  load_props-Ensures a b c =
      let prop = get_prop_id-Ensures d in
      >>=-Ensures Any _ (record { post = λ w r e. tt })
        λ _ _. >>=-Ensures _ _ (prop b ObjectType.crtc "MODE_ID") λ _ mode_id.
          >>=-Ensures _ _ (prop b ObjectType.crtc "ACTIVE") λ _ active.
            >>=-Ensures _ _ (prop c ObjectType.plane "FB_ID") λ _ fb_id.
              >>=-Ensures _ _ (prop c ObjectType.plane "CRTC_ID") λ _ crtc_id.
                >>=-Ensures _ _ (prop c ObjectType.plane "SRC_X") λ _ src_x.
                  >>=-Ensures _ _ (prop c ObjectType.plane "SRC_Y") λ _ src_y.
                    >>=-Ensures _ _ (prop c ObjectType.plane "SRC_W") λ _ src_w.
                      >>=-Ensures _ _ (prop c ObjectType.plane "SRC_H") λ _ src_h.
                        >>=-Ensures _ _ (prop c ObjectType.plane "CRTC_X") λ _ crtc_x.
                          >>=-Ensures _ _ (prop c ObjectType.plane "CRTC_Y") λ _ crtc_y.
                            >>=-Ensures _ _ (prop c ObjectType.plane "CRTC_W") λ _ crtc_w.
                              >>=-Ensures _ _ (prop c ObjectType.plane "CRTC_H") λ _ crtc_h.
                                pure-Ensures _ _ (record {
                                  crtc_id = crtc_id;
                                  mode_id = mode_id;
                                  active = active;
                                  fb_id = fb_id;
                                  src_x = src_x;
                                  src_y = src_y;
                                  src_w = src_w;
                                  src_h = src_h;
                                  crtc_x = crtc_x;
                                  crtc_y = crtc_y;
                                  crtc_w = crtc_w;
                                  crtc_h = crtc_h;
                                })

  pub load_props-Returns : (a b c : ℕ) → Returns (load_props d a b c)
  unfolding load_props
  load_props-Returns a b c = search (returning, get_prop_id-Succeeds) depth 32
