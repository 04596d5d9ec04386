-- ===== src/Drm/Atomic/Shown.antt =====
-- What atomic_modeset_minimal.c puts on the screen.
use embedded_linux_bsp.Common.{
  ℕ, ◌^◌, ◌<◌, ◌≡◌, refl, ◌⊎◌, inl, inr, true, false, Bool, some, nonzero, List, [], ◌∷◌, ◌++◌, ℤ,
}
use embedded_linux_bsp.Common.World.{Result, ok, err, ask, attempt, ◌>>=◌}
use embedded_linux_bsp.Common.World.Ensures.{no_error, attempt-Returns, Answered, attempt-Ensures}
use embedded_linux_bsp.Common.World.Puts.{
  Puts, silent-Puts, Puts-silent, end-Puts, bracket-Puts, attempt-Puts, Puts-map, ask-IsSilent,
  attempt-IsSilent, pure-IsSilent, fail-IsSilent,
}
use embedded_linux_bsp.Drm.Env.{
  Device, Action, Session, Connector, Mode, Call, card, object_resource, minus_one,
}
use embedded_linux_bsp.Drm.Dumb.{DumbBuffer, destroy_dumb_buffer}
use embedded_linux_bsp.Drm.Dumb.Silent.{create_dumb_buffer-IsSilent, destroy_dumb_buffer-IsSilent}
use embedded_linux_bsp.Drm.Dumb.Made.{
  IsBufferOf, IsMadeFor, create_dumb_buffer-Made, create_dumb_buffer-Returns,
}
use embedded_linux_bsp.Drm.Connector.{Target, first_mode}
use embedded_linux_bsp.Drm.Connector.Found.{
  find_connector_crtc-IsSilent, IsTarget, find_connector_crtc-Ensures,
}
use embedded_linux_bsp.Drm.Dumb.Refused.{IsRefused, Unmade, create_dumb_buffer-Unmade}
use embedded_linux_bsp.Drm.Connector.Missing
use embedded_linux_bsp.Drm.Connector.Missing.{find_connector_crtc-Blames}
use embedded_linux_bsp.Drm.Atomic.Missing.{IsMissing, find_primary_plane-Blames}
use embedded_linux_bsp.Drm.Atomic.Lookup.{IsPlaneOf, find_primary_plane-Ensures}
use embedded_linux_bsp.Drm.Atomic.Request.{AddsAll}
use embedded_linux_bsp.Drm.Atomic.Silent.{find_primary_plane-IsSilent}
use embedded_linux_bsp.Drm.Atomic.{show, render, modeset, main}
use embedded_linux_bsp.Drm.Atomic.Named.{Any}
use embedded_linux_bsp.Drm.Atomic.Committed.{IsSetting, IsCommit, green, show-Puts}

-- The first mode of each connector that the device gives is narrower and lower than 2^15.
abbrev pub IsNarrow : Device → Type 0
IsNarrow d =
    (t id : ℕ) (conn : Connector) (mode : Mode)
    → d.get_connector t id ≡ ok conn
    → first_mode conn ≡ some mode
    → (mode.hdisplay < 2 ^ 15) × (mode.vdisplay < 2 ^ 15)

-- What can be wrong before a buffer is filled: the device refused the card, or gave no connector and no CRTC to go on
-- with, or for the CRTC found no plane, or for the mode found no buffer.
pub data Excuse (d : Device) : Type 0 where
  unopened : (t : ℕ) (e : ℤ) → d.open_card t ≡ err e → Excuse d
  no_target : Missing.IsMissing d → Excuse d
  no_plane : (target : Target) → IsTarget d target → IsMissing d target.crtc_id → Excuse d
  no_space : (target : Target) → IsTarget d target → IsRefused d target.mode → Excuse d

-- Nothing, for a reason; or a buffer is filled, and then a request is committed for it, or nothing for a reason.
abbrev pub IsShown : Device → List Call → Type 0
IsShown d calls =
    ((calls ≡ []) × Excuse d)
    ⊎ ((target : Target) × (plane_id : ℕ) × (buf : DumbBuffer) × IsSetting d target plane_id buf
        × (rest : List Call) × IsCommit d target plane_id buf rest
        × (calls ≡ green target buf ∷ rest))

module _ (d : Device) (adds : AddsAll d) (thin : IsNarrow d) where
  render-Puts :
      (target : Target) (plane_id : ℕ)
      → IsTarget d target
      → IsPlaneOf d target.crtc_id plane_id
      → Puts (λ _ calls. IsShown d calls) (render d target plane_id)
  unfolding render
  render-Puts target plane_id found plane =
      silent-Puts (λ r. IsMadeFor d target.mode r × Unmade d target.mode r) _
        (create_dumb_buffer-IsSilent d _ _ _)
        (record {
          post = λ w r e. (
            (create_dumb_buffer-Made d target.mode).post w r e,
            (create_dumb_buffer-Unmade d target.mode).post w r e,
          );
        })
        (λ w e q. no_error _ w e (create_dumb_buffer-Returns d _ _ _) q)
        λ (buf, ret) (made, unmade).
          choose (nonzero ret) buf made λ bad. no_space target found (unmade bad)
    where
      small : (target.mode.hdisplay < 2 ^ 15) × (target.mode.vdisplay < 2 ^ 15)
      small = let (t, id, got, first) = found.usable in thin t id found.conn target.mode got first

      choose :
          (b : Bool) (buf : DumbBuffer)
          → (b ≡ false → IsBufferOf d target.mode buf)
          → (b ≡ true → Excuse d)
          → Puts
              (λ _ calls. IsShown d calls)
              (let act : Action (Unit {0}) = elim b [
                | true ↦ minus_one
                | false ↦ do shown ← attempt (show d target plane_id buf); destroy_dumb_buffer buf
              ] in
                act)
      choose true buf made bad = end-Puts _ (fail-IsSilent _) λ w. inl (refl, bad refl)
      choose false buf made bad =
          Puts-silent (IsShown d)
            (attempt-Puts (IsShown d) (
              Puts-map _ _
                (λ r calls (rest, is, same). inr (
                  target,
                  plane_id,
                  buf,
                  record { found = found; plane = plane; buffer = made refl },
                  rest,
                  is,
                  same,
                ))
                (show-Puts d adds target plane_id buf small.0 small.1)))
            λ _. destroy_dumb_buffer-IsSilent buf

  modeset-Puts : Puts (λ _ calls. IsShown d calls) (modeset d)
  unfolding modeset
  modeset-Puts =
      silent-Puts (IsTarget d) _ (find_connector_crtc-IsSilent d) (find_connector_crtc-Ensures d)
        (λ w e q. inl (refl, no_target ((find_connector_crtc-Blames d).fault w e q)))
        λ target found.
          silent-Puts (IsPlaneOf d target.crtc_id) _ (find_primary_plane-IsSilent d _)
            (find_primary_plane-Ensures d target.crtc_id)
            (λ w e q. inl (
              refl,
              no_plane target found ((find_primary_plane-Blames d target.crtc_id).fault w e q),
            ))
            λ plane_id plane. render-Puts target plane_id found plane

  main-Puts : Puts (λ _ calls. IsShown d calls) (main d)
  unfolding main
  main-Puts =
      silent-Puts (Answered d.open_card) _ (attempt-IsSilent (ask-IsSilent _)) (attempt-Ensures _)
        (λ w e q. no_error _ w e (attempt-Returns _) q)
        (elim [
          | err e ↦ λ (t, q). end-Puts _ (pure-IsSilent _) λ w. inl (refl, unopened t e q)
          | ok _ ↦ λ _.
              Puts-silent (IsShown d)
                (bracket-Puts _ card (
                  cap _ (λ _. cap _ (λ _.
                    Puts-silent (IsShown d) (attempt-Puts (IsShown d) modeset-Puts)
                      λ _. pure-IsSilent _))))
                λ _. pure-IsSilent _
        ])
    where
      cap :
          (f : ℕ → Result (Unit {0})) {k : Result (Unit {0}) → Action (Unit {0})}
          → ((r : Result (Unit {0})) → Puts (λ _ calls. IsShown d calls) (k r))
          → Puts (λ _ calls. IsShown d calls) (attempt (ask f) >>= k)
      cap f h =
          silent-Puts Any _ (attempt-IsSilent (ask-IsSilent _)) (record { post = λ w r e. tt })
            (λ w e q. no_error _ w e (attempt-Returns _) q) λ r _. h r

  -- If the library accepts every item, and the first mode of each connector that the device gives is narrower
  -- and lower than 2^15, then whatever else the device answers, what `main` puts out is one of three. It is
  -- nothing, and then the device at some moment refuses the `open`; or refuses its resources, or refuses each connector
  -- that they name or gives it without a connection or a mode, or gives for a usable one no encoder; or has, for the
  -- CRTC of such a connector, no primary plane to give; or refuses, for its first mode, a buffer or the framebuffer, the
  -- offset or the mapping of the buffer that it gave. It is one buffer filled in
  -- green, of the size of the first mode of a connected connector that the device gave, and then the device at some
  -- moment refuses the blob of the mode or the request. Or it is that, and then one request with the thirteen items
  -- that show this buffer on the whole screen, for the CRTC of the connector's encoder, a plane that is primary for
  -- it, and a blob made of the mode, each item with 0 or the number of a property of the item's name.
  pub main-shows :
      (w : Session) → (calls : List Call) × ((main d w).1.out ≡ w.out ++ calls) × IsShown d calls
  main-shows = main-Puts.put
