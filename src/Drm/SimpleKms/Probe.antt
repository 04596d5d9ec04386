-- ===== src/Drm/SimpleKms/Probe.antt =====
-- The order of the calls of a probe.
use mathlib.Core.List.{append_assoc}
use embedded_linux_bsp.Common.{
  ℕ, ◌+◌, ◌≡◌, refl, ◌∙◌, inl, inr, Option, none, some, List, [], ◌∷◌, ◌++◌,
}
use embedded_linux_bsp.Common.World.{Result, Result-cases, ok, err, World, ◌>>=◌, ◌>>◌, ask, emit}
use embedded_linux_bsp.Drm.SimpleKms.{
  my_formats, Call, devm_drm_dev_alloc, platform_set_drvdata, drmm_mode_config_init, mode_config,
  connector_helper_add, connector_init, display_pipe_init, mode_config_reset, dev_register,
  fbdev_generic_setup, Kernel, Action, attempt_call, my_drm_probe,
}

-- The specification: a list of calls, of which some can fail, made one after the other until one does.
abbrev pub Plan : Type 0
Plan = List (Call × Option (ℕ → Result (Unit {0})))

-- The calls that are made, and the result: the first error.
unfoldable pub until_error : ℕ → Plan → List Call × Result (Unit {0})
until_error t [] = ([], ok tt)
until_error t ((c, none) ∷ rest) = (c ∷ (until_error t rest).0, (until_error t rest).1)
until_error t ((c, some answer) ∷ rest) = elim (answer t) [
  | err e ↦ (c ∷ [], err e)
  | ok _ ↦ (c ∷ (until_error (t + 1) rest).0, (until_error (t + 1) rest).1)
]

-- the calls of `my_drm_probe`, as a list
abbrev pub kms_plan : Kernel → Plan
kms_plan k =
    (devm_drm_dev_alloc, some k.devm_drm_dev_alloc)
    ∷ (platform_set_drvdata, none)
    ∷ (drmm_mode_config_init, some k.drmm_mode_config_init)
    ∷ (mode_config 800 800 480 480, none)
    ∷ (connector_helper_add, none)
    ∷ (connector_init, some k.connector_init)
    ∷ (display_pipe_init my_formats, some k.display_pipe_init)
    ∷ (mode_config_reset, none)
    ∷ (dev_register, some k.dev_register)
    ∷ (fbdev_generic_setup 32, none)
    ∷ []

-- `body` makes the calls of the plan.
pub record Follows (body : Action) (plan : Plan) : Type 0 where
  pub result : (w : World (Unit {0}) Call) → (body w).0 ≡ (until_error w.tick plan).1
  pub calls : (w : World (Unit {0}) Call) → (body w).1.out ≡ w.out ++ (until_error w.tick plan).0

pub emit-Follows : (c : Call) → Follows (emit c) ((c, none) ∷ [])
unfolding emit until_error
emit-Follows c = record { result = λ w. refl; calls = λ w. refl }

pub attempt-Follows :
    (c : Call) (f : ℕ → Result (Unit {0})) → Follows (attempt_call c f) ((c, some f) ∷ [])
unfolding emit ask ◌>>=◌ until_error
attempt-Follows c f = record {
  result = λ w. elim (Result-cases (f w.tick)) [
    | inl (e, q) ↦ rw (q, until_error) refl
    | inr (_, q) ↦ rw (q, until_error) refl
  ];
  calls = λ w. elim (Result-cases (f w.tick)) [
    | inl (e, q) ↦ rw (q, until_error) refl
    | inr (_, q) ↦ rw (q, until_error) refl
  ];
}

module _ {body : Action} {plan : Plan} (h : Follows body plan) where
  pub emit->>-Follows : (c : Call) → Follows (emit c >> body) ((c, none) ∷ plan)
  unfolding emit ◌>>=◌ until_error
  emit->>-Follows c = record {
    result = λ w. h.result (record w { out = w.out ++ c ∷ [] });
    calls = λ w.
        h.calls (record w { out = w.out ++ c ∷ [] })
        ∙ append_assoc w.out (c ∷ []) (until_error w.tick plan).0;
  }

  pub attempt->>-Follows :
      (c : Call) (f : ℕ → Result (Unit {0}))
      → Follows (attempt_call c f >> body) ((c, some f) ∷ plan)
  unfolding emit ask ◌>>=◌ until_error
  attempt->>-Follows c f = record {
    result = λ w. elim (Result-cases (f w.tick)) [
      | inl (e, q) ↦ rw (q, ◌>>=◌, until_error) refl
      | inr (_, q) ↦
          rw (q, ◌>>=◌, until_error)
            (h.result (record w { tick = w.tick + 1; out = w.out ++ c ∷ [] }))
    ];
    calls = λ w. elim (Result-cases (f w.tick)) [
      | inl (e, q) ↦ rw (q, ◌>>=◌, until_error) refl
      | inr (_, q) ↦
          rw (q, ◌>>=◌, until_error)
            (h.calls (record w { tick = w.tick + 1; out = w.out ++ c ∷ [] })
              ∙ append_assoc w.out (c ∷ []) (until_error (w.tick + 1) plan).0)
    ];
  }

pub ruleset follows = (emit->>-Follows, attempt->>-Follows, emit-Follows, attempt-Follows)

-- Probing makes the calls of the plan.
pub my_drm_probe-Follows : (k : Kernel) → Follows (my_drm_probe k) (kms_plan k)
unfolding my_drm_probe
my_drm_probe-Follows k = search follows depth 12
