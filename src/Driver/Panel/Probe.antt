-- ===== src/Driver/Panel/Probe.antt =====
-- Binding and unbinding the panel's driver.
use embedded_linux_bsp.Common.{
  ◌+◌, ◌≡◌, refl, ap, ◌∙◌, inl, inr, ℤ, List, [], ◌∷◌, Option, none, some,
}
use embedded_linux_bsp.Common.World.{
  Result-cases, ok, err, pure, ◌>>=◌, ◌>>◌, ask, hold, give_back, or_undo,
}
use embedded_linux_bsp.Common.Ledger.{acquire, release, release-acquire}
use embedded_linux_bsp.Driver.Core.{Event, unbind, handle, handle_all, IsTidy, unbind-handle_all}
use embedded_linux_bsp.Driver.Panel.{
  panel, attachment, object_resource, dsi_config, rgb888, video, video_sync_pulse, lpm,
  minimal_panel_driver, Kernel, Session, Action, DsiConfig, minimal_panel_probe,
  minimal_panel_remove,
}

attach_rest : (k : Kernel) → Action DsiConfig
attach_rest k = do ask k.mipi_dsi_attach; hold attachment; pure dsi_config

attach_refused :
    (k : Kernel) (w : Session) (e : ℤ)
    → k.mipi_dsi_attach w.tick ≡ err e
    → (attach_rest k w).1.ledger ≡ w.ledger
unfolding attach_rest ◌>>=◌ ask
attach_refused k w e q = rw (q, ◌>>=◌) refl

attach_granted :
    (k : Kernel) (w : Session)
    → k.mipi_dsi_attach w.tick ≡ ok tt
    → (attach_rest k w).1.ledger ≡ acquire attachment w.ledger
unfolding attach_rest ◌>>=◌ ask hold pure
attach_granted k w q = rw (q, ◌>>=◌) refl

-- Four lanes, 24 bits for each pixel, and video mode with sync pulses, in low power for the commands.
pub record IsConfigured (config : DsiConfig) : Type 0 where
  pub lanes : config.lanes ≡ 4
  pub format : config.format ≡ rgb888
  pub mode_flags : config.mode_flags ≡ video ∷ video_sync_pulse ∷ lpm ∷ []

-- The laws of the driver: a refused probe takes the panel off the list again, and the remove gives back
-- the attachment and the panel.
minimal_panel_driver-IsTidy : (k : Kernel) → IsTidy IsConfigured (minimal_panel_driver k)
unfolding minimal_panel_probe minimal_panel_remove attach_rest pure ◌>>=◌ ask hold give_back or_undo
minimal_panel_driver-IsTidy k = record {
  probed = λ w. elim (Result-cases (k.devm_kzalloc w.tick)) [
    | inl (e, q) ↦ inl (e, rw (q, ◌>>=◌) refl, rw (q, ◌>>=◌) refl)
    | inr (_, q) ↦ elim (Result-cases (k.mipi_dsi_attach (w.tick + 1))) [
      | inl (e, r) ↦ inl (
        e,
        rw (q, ◌>>=◌, or_undo, r) refl,
        rw (q, ◌>>=◌, or_undo, r)
            (ap (release panel) (attach_refused k _ e r) ∙ release-acquire panel w.ledger),
      )
      | inr (_, r) ↦ inr (
        dsi_config,
        rw (q, ◌>>=◌, or_undo, r) refl,
        record { lanes = refl; format = refl; mode_flags = refl },
        λ w' e. (
          refl,
          ap (λ l. release panel (release attachment l))
                (e ∙ (rw (q, ◌>>=◌, or_undo, r) (attach_granted k _ r)))
              ∙ ap (release panel) (release-acquire attachment _)
              ∙ release-acquire panel w.ledger,
        ),
      )
    ]
  ];
}

-- In whatever order the driver core probes a device that is not bound and removes one that is, probes that fail
-- among them: while the device is bound, it has four lanes, the pixel format RGB888, and the mode flags video, video
-- sync pulse and low power mode; and once it is unbound, the list of panels and the DSI host are as they were at first.
pub minimal_panel_unbinds :
    (k : Kernel) (es : List Event) (w : Session)
    → let run = handle_all (minimal_panel_driver k) es none w in
      (b : Option DsiConfig) × (run.0 ≡ ok b)
      × ((config : DsiConfig) → b ≡ some config → IsConfigured config)
      × ((handle (minimal_panel_driver k) unbind b run.1).0 ≡ ok none)
      × ((handle (minimal_panel_driver k) unbind b run.1).1.ledger ≡ w.ledger)
minimal_panel_unbinds k =
    unbind-handle_all (minimal_panel_driver k) IsConfigured (minimal_panel_driver-IsTidy k)
