-- ===== src/Drm/PageFlip.antt =====
-- code/examples/drm/drm_vblank_pageflip_flow/userspace/page_flip_minimal.c: two buffers, of which one
-- is on the screen while the other is drawn.
pub mod Screen
pub mod Tearing
pub mod Frames
pub mod Balance
pub mod Release
pub mod Pair
pub mod Ending
pub mod Silent
pub mod Untorn
mod Tests
use embedded_linux_bsp.Common.{
  ℕ, zero, suc, ◌+◌, ◌-◌, ◌%◌, true, false, Bool, ◌==◌, ltb, Option, none, some, List, [], ◌∷◌, ℤ,
  pos, negsuc, nonzero, if◌then◌else◌,
}
use embedded_linux_bsp.Common.World.{
  Result, ok, err, pure, fail, ◌>>=◌, ◌>>◌, attempt, ask, emit, hold, give_back,
}
use embedded_linux_bsp.Drm.Env.{
  Device, Action, Session, Mode, Call, card, framebuffer, gem, object_resource, minus_one,
}
use embedded_linux_bsp.Drm.Dumb
use embedded_linux_bsp.Drm.Dumb.{DumbBuffer, no_buffer, unmap}
use embedded_linux_bsp.Drm.Fill
use embedded_linux_bsp.Drm.Fill.{Memory}
use embedded_linux_bsp.Drm.Connector
use embedded_linux_bsp.Drm.Connector.{Target}

-- `struct app`, less the file descriptor; `target` has `conn_id`, `crtc_id` and `mode`, and the two
-- elements of `bufs` are fields.
pub record App : Type 0 where
  pub target : Target
  pub buf_0 : DumbBuffer
  pub buf_1 : DumbBuffer
  pub front : ℕ
  pub back : ℕ
  pub page_flip_pending : Bool

-- `app->bufs[i]`, for an index 0 or 1
pub buf_at : App → ℕ → DumbBuffer
buf_at app i = if i == 0 then app.buf_0 else app.buf_1

-- the same functions as in the atomic program
abbrev pub create_dumb_buffer : Device → ℕ → ℕ → DumbBuffer → Action (DumbBuffer × ℤ)
create_dumb_buffer = Dumb.create_dumb_buffer

abbrev pub fill_color : (map pitch width height color : ℕ) → Memory → Memory
fill_color = Fill.fill_color

abbrev pub find_connector_and_crtc : Device → Action Target
find_connector_and_crtc = Connector.find_connector_crtc

-- Unlike the atomic program, this one returns at once without a handle, and clears the buffer.
pub destroy_dumb_buffer : DumbBuffer → Action DumbBuffer
destroy_dumb_buffer buf = elim (ltb 0 buf.handle) [
  | false ↦ pure buf
  | true ↦ do
    unmap buf.map
    if ltb 0 buf.fb_id then give_back (framebuffer buf.fb_id) else pure tt
    give_back (gem buf.handle)
    pure no_buffer
]

pub page_flip_handler : App → App
page_flip_handler app = record app { page_flip_pending = false; front = app.back; back = app.front }

-- One round of `select` and `drmHandleEvent`, as the kernel answers.
pub data Wake : Type 0 where
  interrupted : Wake  -- EINTR
  select_failed : Wake
  not_ready : Wake  -- without FD_ISSET
  -- the number of events, each given to the handler, and the return value of `drmHandleEvent`
  handled : ℕ → ℤ → Wake

-- How `wait_page_flip_event` ends: it returns, with what is left of the answers, or it still waits
-- when they are used up.
pub data Waited : Type 0 where
  returned : ℤ → App → List Wake → Waited
  blocked : Waited

-- `drmHandleEvent` on so many events
pub handle_events : ℕ → App → Action App
handle_events zero app = pure app
handle_events (suc n) app = do emit Call.flip_done; handle_events n (page_flip_handler app)

pub wait_page_flip_event : List Wake → App → Action Waited
wait_page_flip_event [] app =
    if app.page_flip_pending then pure blocked else pure (returned (pos 0) app [])
wait_page_flip_event (wake ∷ rest) app =
    let turn : Action Waited = elim wake [
      | interrupted ↦ wait_page_flip_event rest app
      | select_failed ↦ pure (returned (negsuc 0) app rest)
      | not_ready ↦ wait_page_flip_event rest app
      | handled n ret ↦ do
        app' ← handle_events n app
        elim (nonzero ret) [
          | true ↦ pure (returned (negsuc 0) app' rest)
          | false ↦ wait_page_flip_event rest app'
        ]
    ] in
    if app.page_flip_pending then turn else pure (returned (pos 0) app (wake ∷ rest))

-- `colors[i % 4]`
pub color_at : ℕ → ℕ
color_at i =
    let k = i % 4 in
    if k == 0
    then 0x00ff0000
    else (if k == 1 then 0x0000ff00 else (if k == 2 then 0x000000ff else 0x00ffffff))

pub fill_buffer : App → ℕ → ℕ → Action (Unit {0})
fill_buffer app i color =
    emit
      (Call.fill_color (buf_at app i).fb_id app.target.mode.hdisplay app.target.mode.vdisplay color)

-- the end of a round: what the wait returned, and the rounds that follow
pub after_wait : (List Wake → App → Action (Option App)) → Waited → Action (Option App)
after_wait loop blocked = pure none
after_wait loop (returned ret app rest) = elim (nonzero ret) [
  | true ↦ minus_one
  | false ↦ loop rest app
]

module _ (d : Device) where
  -- `drmModePageFlip`: only a flip that is accepted reaches the screen.
  pub request_flip : App → Action (Unit {0})
  request_flip app = do
    ask (λ t. d.page_flip t app.target.crtc_id (buf_at app app.back).fb_id)
    emit (Call.page_flip (buf_at app app.back).fb_id)

  -- the loop of `main`, from round `i`, with `n` rounds left; `none` if it still waits for an event
  -- when the answers are used up
  pub flip_loop : ℕ → ℕ → List Wake → App → Action (Option App)
  flip_loop zero i wakes app = pure (some app)
  flip_loop (suc n) i wakes app =
      let later = flip_loop n (i + 1) in
      do
        fill_buffer app app.back (color_at i)
        request_flip (record app { page_flip_pending = true })
        waited ← wait_page_flip_event wakes (record app { page_flip_pending = true })
        after_wait later waited

  -- from `app.front = 0` to the label `err_destroy`
  pub flip_all : List Wake → Target → DumbBuffer → DumbBuffer → Action (Option App)
  flip_all wakes target b₀ b₁ =
      let app : App = record {
        target = target;
        buf_0 = b₀;
        buf_1 = b₁;
        front = 0;
        back = 1;
        page_flip_pending = false;
      } in
      do
        fill_buffer app app.front (color_at 0)
        ask (λ t.
            d.set_crtc t target.crtc_id (buf_at app app.front).fb_id target.conn_id target.mode)
        emit (Call.set_crtc (buf_at app app.front).fb_id)
        flip_loop 19 1 wakes app

  -- the label `err_destroy`
  pub destroy_both : DumbBuffer → DumbBuffer → Action Bool
  destroy_both b₀ b₁ = do
    cleared₀ ← destroy_dumb_buffer b₀
    cleared₁ ← destroy_dumb_buffer b₁
    pure true

  pub show_flips : List Wake → Target → DumbBuffer → DumbBuffer → Action Bool
  show_flips wakes target b₀ b₁ = do
    shown ← attempt (flip_all wakes target b₀ b₁)
    elim shown [
      | err _ ↦ destroy_both b₀ b₁
      | ok flips ↦ elim flips [ some _ ↦ destroy_both b₀ b₁ | none ↦ pure false ]
    ]

  -- the loop that creates the buffers, and what follows; `false` if the program still waits
  pub with_buffers : List Wake → Target → Action Bool
  with_buffers wakes target = do
    created₀ ← create_dumb_buffer d target.mode.hdisplay target.mode.vdisplay no_buffer
    elim (nonzero created₀.1) [
      | true ↦ destroy_both created₀.0 no_buffer
      | false ↦ do
        created₁ ← create_dumb_buffer d target.mode.hdisplay target.mode.vdisplay no_buffer
        elim (nonzero created₁.1) [
          | true ↦ destroy_both created₀.0 created₁.0
          | false ↦ show_flips wakes target created₀.0 created₁.0
        ]
    ]

  -- `main`, with the exit status; `none` while it waits
  pub main : List Wake → Action (Option ℕ)
  main wakes = do
    opened ← attempt (ask d.open_card)
    elim opened [
      | err _ ↦ pure (some 1)
      | ok _ ↦ do
        hold card
        found ← attempt (find_connector_and_crtc d)
        finished ← elim found [ err _ ↦ pure true | ok target ↦ with_buffers wakes target ]
        elim finished [ true ↦ do give_back card; pure (some 0) | false ↦ pure none ]
    ]
