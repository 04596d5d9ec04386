-- ===== src/Drm/Atomic/Balance.antt =====
-- What atomic_modeset_minimal.c holds at the end of each function, and of `main`.
pub mod Search
use Prim.Native.String.{String}
use embedded_linux_bsp.Common.{
  ℕ, ◌+◌, ◌≡◌, ◌∙◌, ap, ◌⊎◌, inl, inr, true, false, Bool, Bool-cases, ltb, Option, none, some, List,
  [], ◌∷◌, ℤ, nonzero,
}
use embedded_linux_bsp.Common.World.{Result-cases, ok, err, pure, fail, ◌>>=◌, attempt, bracket}
use embedded_linux_bsp.Common.World.Balance.{
  IsBalanced, >>=-IsBalanced, ask-IsBalanced, attempt-IsBalanced, bracket-IsBalanced,
  emit-IsBalanced, pure-IsBalanced, fail-IsBalanced, balance,
}
use embedded_linux_bsp.Common.Ledger.{Ledger, acquire}
use embedded_linux_bsp.Drm.Env.{
  Device, Action, Session, ObjectType, Plane, Created, object_resource, gem, blob, card, Object,
}
use embedded_linux_bsp.Drm.Dumb.{DumbBuffer, no_buffer, create_dumb_buffer}
use embedded_linux_bsp.Drm.Dumb.Balance.{
  IsNumbered, Leaves, create_dumb_buffer-Leaves, destroy_dumb_buffer-Ends, holding,
}
use embedded_linux_bsp.Drm.Dumb.Whole.{IsWhole, create_dumb_buffer_whole, create_dumb_buffer_leaks}
use embedded_linux_bsp.Drm.Connector.{Target, find_connector_crtc}
use embedded_linux_bsp.Drm.Connector.First.{find_connector_crtc-IsBalanced}
use embedded_linux_bsp.Drm.Atomic.Balance.Search.{
  get_prop_id-IsBalanced, find_primary_plane-IsBalanced,
}
use embedded_linux_bsp.Drm.Atomic.{
  Item, scan_props, get_prop_id, is_primary, can_drive, search_planes, search_at,
  find_primary_plane, load_props, add_all, build_request, commit, commit_request, show, render,
  modeset, main, ObjectProps,
}

module _ (d : Device) where
  load_props-IsBalanced : (a b c : ℕ) → IsBalanced (load_props d a b c)
  unfolding load_props
  load_props-IsBalanced a b c = search (balance, get_prop_id-IsBalanced) depth 32

  add_all-IsBalanced : (items req : List Item) → IsBalanced (add_all d items req)
  unfolding add_all
  add_all-IsBalanced [] req = pure-IsBalanced req
  add_all-IsBalanced (item ∷ rest) req =
      >>=-IsBalanced (attempt-IsBalanced (ask-IsBalanced _)) λ added. add_all-IsBalanced rest _

  build_request-IsBalanced :
      (t : Target) (p b : ℕ) (props : ObjectProps) (buf : DumbBuffer)
      → IsBalanced (build_request d t p b props buf)
  unfolding build_request
  build_request-IsBalanced t p b props buf =
      >>=-IsBalanced (get_prop_id-IsBalanced d _ _ _) λ q. add_all-IsBalanced _ _

  commit-IsBalanced : (req : List Item) → IsBalanced (commit d req)
  unfolding commit
  commit-IsBalanced req = search balance

  commit_request-IsBalanced :
      (t : Target) (p b : ℕ) (buf : DumbBuffer) → IsBalanced (commit_request d t p b buf)
  unfolding commit_request
  commit_request-IsBalanced t p b buf =
      search (balance, load_props-IsBalanced, build_request-IsBalanced, commit-IsBalanced) depth 12

  show-IsBalanced : (t : Target) (p : ℕ) (buf : DumbBuffer) → IsBalanced (show d t p buf)
  unfolding show
  show-IsBalanced t p buf =
      >>=-IsBalanced (emit-IsBalanced _)
        λ _. >>=-IsBalanced (ask-IsBalanced _) λ b. choose (ltb 0 b) b
    where
      choose :
          (c : Bool) (b : ℕ)
          → IsBalanced (elim c [
            | true ↦ bracket (blob b) (commit_request d t p b buf)
            | false ↦ commit_request d t p b buf
          ])
      choose true b = bracket-IsBalanced _ (commit_request-IsBalanced t p b buf)
      choose false b = commit_request-IsBalanced t p b buf

-- A `create_dumb_buffer` that failed half way: `l` was held before, and `after` is held at the end,
-- with what the buffer names on top.
pub record IsAbandoned (d : Device) (l after : Ledger Object) : Type 0 where
  pub target : Target
  pub start : Session
  pub buf : DumbBuffer
  pub ret : ℤ
  pub created :
      (create_dumb_buffer d target.mode.hdisplay target.mode.vdisplay no_buffer start).0
      ≡ ok (buf, ret)
  pub failed : nonzero ret ≡ true
  pub left : after ≡ holding buf l

module _ (d : Device) (numbered : IsNumbered d) where
  render-ledger :
      (target : Target) (plane_id : ℕ) (l : Ledger Object) (w : Session)
      → w.ledger ≡ l
      → ((render d target plane_id w).1.ledger ≡ l)
        ⊎ IsAbandoned d l (render d target plane_id w).1.ledger
  unfolding render ◌>>=◌ attempt fail
  render-ledger target plane_id l w e = elim (Bool-cases (nonzero c.ret)) [
    | inl bad ↦ inr (record {
      target = target;
      start = w;
      buf = c.buf;
      ret = c.ret;
      created = c.returned;
      failed = bad;
      left = rw (c.returned, ◌>>=◌, bad) c.held;
    })
    | inr good ↦ inl (
        rw (c.returned, ◌>>=◌, good)
          (destroy_dumb_buffer-Ends c.buf l _
            ((show-IsBalanced d target plane_id c.buf).held _ ∙ c.held)).left)
  ]
    where
      c : Leaves l (create_dumb_buffer d target.mode.hdisplay target.mode.vdisplay no_buffer w)
      c = create_dumb_buffer-Leaves d numbered l target.mode.hdisplay target.mode.vdisplay w e

  -- On a device that numbers buffers and framebuffers from 1, what the program does between the `open` and the
  -- label `err_close` ends holding what it held before, or holding in addition just what a failed
  -- `create_dumb_buffer` left in the buffer.
  pub modeset-ledger :
      (w : Session)
      → ((modeset d w).1.ledger ≡ w.ledger) ⊎ IsAbandoned d w.ledger (modeset d w).1.ledger
  unfolding modeset ◌>>=◌
  modeset-ledger w = elim (Result-cases (find_connector_crtc d w).0) [
    | inl (x, q) ↦ inl (rw (q, ◌>>=◌) held₁)
    | inr (target, q) ↦ elim (Result-cases (find_primary_plane d target.crtc_id w₁).0) [
      | inl (x, q₂) ↦
          inl (rw (q, ◌>>=◌, q₂) ((find_primary_plane-IsBalanced d target.crtc_id).held w₁ ∙ held₁))
      | inr (plane_id, q₂) ↦
          rw (q, ◌>>=◌, q₂)
            (render-ledger target plane_id w.ledger _
              ((find_primary_plane-IsBalanced d target.crtc_id).held w₁ ∙ held₁))
    ]
  ]
    where
      w₁ : Session
      w₁ = (find_connector_crtc d w).1

      held₁ : w₁.ledger ≡ w.ledger
      held₁ = (find_connector_crtc-IsBalanced d).held w

  module _ (whole : IsWhole d) where
    modeset-IsBalanced : IsBalanced (modeset d)
    modeset-IsBalanced = record {
      held = λ w. elim (modeset-ledger w) [
        | inl same ↦ same
        | inr a ↦
            a.left
            ∙ ap (λ b. holding b w.ledger)
                (create_dumb_buffer_whole d _ _ a.start a.buf a.ret whole a.created a.failed)
      ];
    }

    main-IsBalanced : IsBalanced (main d)
    unfolding main
    main-IsBalanced = >>=-IsBalanced (attempt-IsBalanced (ask-IsBalanced _)) (elim [
      | err _ ↦ pure-IsBalanced 1
      | ok _ ↦
          >>=-IsBalanced (bracket-IsBalanced card (search (balance, modeset-IsBalanced) depth 10))
            λ _. pure-IsBalanced 0
    ])

    -- On a device that numbers buffers and framebuffers from 1, and on which the calls after the creation of a
    -- buffer (framebuffer, offset, mapping) do not fail, `main` gives back all that it took, whatever else
    -- fails.
    pub main_atomic_balanced : (w : Session) → (main d w).1.ledger ≡ w.ledger
    main_atomic_balanced w = main-IsBalanced.held w

-- If a connector and a plane are found, the buffer is created, and `drmModeAddFB` is refused, then the
-- program reaches the label `err_close` still holding the buffer.
pub modeset_leaks :
    (d : Device) (w : Session) (target : Target) (plane_id : ℕ) (c : Created) (x : ℤ)
    → (find_connector_crtc d w).0 ≡ ok target
    → (let w₁ = (find_connector_crtc d w).1 in
        (find_primary_plane d target.crtc_id w₁).0 ≡ ok plane_id)
    → (let w₂ = (find_primary_plane d target.crtc_id (find_connector_crtc d w).1).1 in
        (d.create_dumb w₂.tick target.mode.hdisplay target.mode.vdisplay 32 ≡ ok c)
        × (d.add_fb (w₂.tick + 1) target.mode.hdisplay target.mode.vdisplay 24 32 c.pitch c.handle
            ≡ err x))
    → (modeset d w).1.ledger ≡ acquire (gem c.handle) w.ledger
unfolding modeset render ◌>>=◌ fail
modeset_leaks d w target plane_id c x found primary (made, refused) =
    let w₁ = (find_connector_crtc d w).1 in
    let w₂ = (find_primary_plane d target.crtc_id w₁).1 in
    let (ret, held) =
      create_dumb_buffer_leaks d target.mode.hdisplay target.mode.vdisplay w₂ c x made refused in
    rw (found, ◌>>=◌, primary, ret)
      (held
        ∙ ap (acquire (gem c.handle)) (
            (find_primary_plane-IsBalanced d target.crtc_id).held w₁
            ∙ (find_connector_crtc-IsBalanced d).held w))
