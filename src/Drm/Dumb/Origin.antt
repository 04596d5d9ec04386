-- ===== src/Drm/Dumb/Origin.antt =====
-- Where the identifiers in a buffer come from.
use embedded_linux_bsp.Common.{
  ℕ, ◌+◌, ◌<◌, ◌≤◌, ◌≡◌, ◌≢◌, refl, ◌∙◌, ap, ◌⊎◌, inl, inr, ℤ, pos, negsuc, arith,
}
use embedded_linux_bsp.Common.World.{Result, Result-cases, ok, pure, ◌>>=◌, attempt, ask, hold}
use embedded_linux_bsp.Common.Ledger.{acquire}
use embedded_linux_bsp.Drm.Env.{Device, Session, gem, framebuffer, object_resource, Created}
use embedded_linux_bsp.Drm.Dumb.{
  null, map_failed, at, DumbBuffer, no_buffer, map_buffer, prepare_map, add_framebuffer,
  create_dumb_buffer,
}
use embedded_linux_bsp.Drm.Dumb.Balance.{IsNumbered}

abbrev pub IsHandle : Device → ℕ → ℕ → Type 0
IsHandle d t n =
    (width height : ℕ) × (c : Created) × (d.create_dumb t width height 32 ≡ ok c) × (c.handle ≡ n)

abbrev pub IsFramebuffer : Device → ℕ → ℕ → Type 0
IsFramebuffer d t n =
    (width height pitch handle : ℕ) × (d.add_fb t width height 24 32 pitch handle ≡ ok n)

abbrev pub IsAddress : Device → ℕ → ℕ → Type 0
IsAddress d t a = (size offset : ℕ) × (d.mmap t size offset ≡ ok a)

-- What the kernel gave at two moments, with nothing given back in between, is not the same.
pub record IsFresh (d : Device) : Type 0 where
  pub handles : (t t' m n : ℕ) → t < t' → IsHandle d t m → IsHandle d t' n → m ≢ n
  pub framebuffers : (t t' m n : ℕ) → t < t' → IsFramebuffer d t m → IsFramebuffer d t' n → m ≢ n
  pub addresses : (t t' m n : ℕ) → t < t' → IsAddress d t m → IsAddress d t' n → m ≢ n

-- at some moment from `lo` on and before `hi`
abbrev pub Between : (lo hi : ℕ) → (ℕ → Type 0) → Type 0
Between lo hi P = (t : ℕ) × (lo ≤ t) × (t < hi) × P t

-- Each identifier in the buffer is 0 or was given between the two moments.
pub record IsGiven (d : Device) (lo hi : ℕ) (b : DumbBuffer) : Type 0 where
  pub handle : (b.handle ≡ 0) ⊎ Between lo hi (λ t. IsHandle d t b.handle)
  pub framebuffer : (b.fb_id ≡ 0) ⊎ Between lo hi (λ t. IsFramebuffer d t b.fb_id)
  pub address : (a : ℕ) → b.map ≡ at a → Between lo hi (λ t. IsAddress d t a)

Between-later : (lo hi hi' : ℕ) (P : ℕ → Type 0) → hi ≤ hi' → Between lo hi P → Between lo hi' P
Between-later lo hi hi' P h (t, from, before, p) = (t, from, omega (arith, before, h), p)

or_later :
    (lo hi hi' : ℕ) (A : Type 0) (P : ℕ → Type 0)
    → hi ≤ hi'
    → A ⊎ Between lo hi P
    → A ⊎ Between lo hi' P
or_later lo hi hi' A P h (inl a) = inl a
or_later lo hi hi' A P h (inr b) = inr (Between-later lo hi hi' P h b)

IsGiven-later :
    (d : Device) (lo hi hi' : ℕ) (b : DumbBuffer)
    → hi ≤ hi'
    → IsGiven d lo hi b
    → IsGiven d lo hi' b
IsGiven-later d lo hi hi' b h g = record {
  handle = or_later lo hi hi' _ _ h g.handle;
  framebuffer = or_later lo hi hi' _ _ h g.framebuffer;
  address = λ a e. Between-later lo hi hi' _ h (g.address a e);
}

pub no_buffer-IsGiven : (d : Device) (lo hi : ℕ) → IsGiven d lo hi no_buffer
no_buffer-IsGiven d lo hi = record {
  handle = inl refl;
  framebuffer = inl refl;
  address = λ a e. cc;
}

-- A run that returns a buffer, empty or with its object, whose identifiers were given from `lo` on.
pub record Makes (d : Device) (lo : ℕ) (run : Result (DumbBuffer × ℤ) × Session) : Type 0 where
  pub buf : DumbBuffer
  pub ret : ℤ
  pub returned : run.0 ≡ ok (buf, ret)
  pub given : IsGiven d lo run.1.tick buf
  pub later : lo ≤ run.1.tick
  pub sound : (buf ≡ no_buffer) ⊎ (0 < buf.handle)

module _ (d : Device) (numbered : IsNumbered d) (lo : ℕ) where
  map_buffer-Makes :
      (offset : ℕ) (b : DumbBuffer) (w : Session)
      → b.map ≡ null
      → 0 < b.handle
      → lo ≤ w.tick
      → IsGiven d lo w.tick b
      → Makes d lo (map_buffer d offset b w)
  unfolding map_buffer ◌>>=◌ attempt ask hold pure
  map_buffer-Makes offset b w fresh there from g =
      elim (Result-cases (d.mmap w.tick b.size offset)) [
        | inl (x, q) ↦
            rw (q, map_buffer, ◌>>=◌, attempt)
              (record {
                buf = record b { map = map_failed };
                ret = negsuc 0;
                returned = refl;
                given = record {
                  handle = or_later lo w.tick _ _ _ (omega arith) g.handle;
                  framebuffer = or_later lo w.tick _ _ _ (omega arith) g.framebuffer;
                  address = λ a e. cc;
                };
                later = omega (arith, from);
                sound = inr there;
              })
        | inr (a, q) ↦
            rw (q, map_buffer, ◌>>=◌, attempt)
              (record {
                buf = record b { map = at a };
                ret = pos 0;
                returned = refl;
                given = record {
                  handle = or_later lo w.tick _ _ _ (omega arith) g.handle;
                  framebuffer = or_later lo w.tick _ _ _ (omega arith) g.framebuffer;
                  address = λ a' e.
                      let same : a ≡ a' = cc e in
                      (w.tick, from, omega arith, (b.size, offset, q ∙ ap ok same));
                };
                later = omega (arith, from);
                sound = inr there;
              })
      ]

  prepare_map-Makes :
      (b : DumbBuffer) (w : Session)
      → b.map ≡ null
      → 0 < b.handle
      → lo ≤ w.tick
      → IsGiven d lo w.tick b
      → Makes d lo (prepare_map d b w)
  unfolding prepare_map ◌>>=◌ attempt ask pure
  prepare_map-Makes b w fresh there from g = elim (Result-cases (d.map_dumb w.tick b.handle)) [
    | inl (x, q) ↦
        rw (q, prepare_map, ◌>>=◌, attempt)
          (record {
            buf = b;
            ret = negsuc 0;
            returned = refl;
            given = IsGiven-later d lo w.tick _ b (omega arith) g;
            later = omega (arith, from);
            sound = inr there;
          })
    | inr (offset, q) ↦
        rw (q, prepare_map, ◌>>=◌, attempt)
          (map_buffer-Makes offset b (record w { tick = w.tick + 1 }) fresh there
            (omega (arith, from)) (IsGiven-later d lo w.tick _ b (omega arith) g))
  ]

  add_framebuffer-Makes :
      (width height : ℕ) (b : DumbBuffer) (w : Session)
      → b.map ≡ null
      → 0 < b.handle
      → lo ≤ w.tick
      → IsGiven d lo w.tick b
      → Makes d lo (add_framebuffer d width height b w)
  unfolding add_framebuffer ◌>>=◌ attempt ask hold pure
  add_framebuffer-Makes width height b w fresh there from g =
      elim (Result-cases (d.add_fb w.tick width height 24 32 b.pitch b.handle)) [
        | inl (x, q) ↦
            rw (q, add_framebuffer, ◌>>=◌, attempt)
              (record {
                buf = b;
                ret = negsuc 0;
                returned = refl;
                given = IsGiven-later d lo w.tick _ b (omega arith) g;
                later = omega (arith, from);
                sound = inr there;
              })
        | inr (f, q) ↦
            rw (q, add_framebuffer, ◌>>=◌, attempt)
              (prepare_map-Makes (record b { fb_id = f })
                (record w { tick = w.tick + 1; ledger = acquire (framebuffer f) w.ledger }) fresh
                there (omega (arith, from))
                (record {
                  handle = or_later lo w.tick _ _ _ (omega arith) g.handle;
                  framebuffer =
                      inr (w.tick, from, omega arith, (width, height, b.pitch, b.handle, q));
                  address = λ a e. cc (fresh, e);
                }))
      ]

-- On an empty buffer `create_dumb_buffer` returns, on every branch, the empty buffer or one with its
-- object, and each identifier in it was given during the call.
pub create_dumb_buffer-Makes :
    (d : Device) (width height : ℕ) (w : Session)
    → IsNumbered d
    → Makes d w.tick (create_dumb_buffer d width height no_buffer w)
unfolding create_dumb_buffer ◌>>=◌ attempt ask hold pure
create_dumb_buffer-Makes d width height w numbered =
    elim (Result-cases (d.create_dumb w.tick width height 32)) [
      | inl (x, q) ↦
          rw (q, create_dumb_buffer, ◌>>=◌, attempt)
            (record {
              buf = no_buffer;
              ret = negsuc 0;
              returned = refl;
              given = no_buffer-IsGiven d _ _;
              later = omega arith;
              sound = inl refl;
            })
      | inr (c, q) ↦
          rw (q, create_dumb_buffer, ◌>>=◌, attempt)
            (add_framebuffer-Makes d numbered w.tick width height
              (record { handle = c.handle; pitch = c.pitch; size = c.size; map = null; fb_id = 0 })
              (record w { tick = w.tick + 1; ledger = acquire (gem c.handle) w.ledger }) refl
              (numbered.handle_pos w.tick width height 32 c q) (omega arith)
              (record {
                handle = inr (w.tick, omega arith, omega arith, (width, height, c, q, refl));
                framebuffer = inl refl;
                address = λ a e. cc;
              }))
    ]
