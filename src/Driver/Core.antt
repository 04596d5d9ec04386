-- ===== src/Driver/Core.antt =====
-- How the kernel's driver core uses a driver: it probes a device that is not bound, and removes one that
-- is. The core is not part of this repository: what it does is a sequence of events.
use Prim.Native.String.{String}
use embedded_linux_bsp.Common.{
  ◌≡◌, refl, ◌∙◌, subst, ◌⊎◌, inl, inr, Option, none, some, List, [], ◌∷◌, ℤ,
}
use embedded_linux_bsp.Common.Ledger.{Ledger}
use embedded_linux_bsp.Common.World.{Result, ok, err, World, Run, pure, ◌>>=◌, ◌>>◌, attempt}

-- `struct platform_driver` and its like: the compatible strings end at the empty entry; `P` is what a
-- probe leaves in the device.
pub record DeviceDriver (R O P : Type 0) : Type 0 where
  pub name : String
  pub of_match_table : List String
  pub probe : Run R O P
  pub remove : Run R O (Unit {0})

-- What the core does to one device of a driver.
pub data Event : Type 0 where
  bind unbind : Event

-- The laws of a driver. A probe that fails leaves what is held as it was. One that succeeds leaves in the
-- device what `Q` says, and the remove gives back what it took.
pub record IsTidy {R O P : Type 0} (Q : P → Type 0) (drv : DeviceDriver R O P) : Type 0 where
  pub probed :
      (w : World R O)
      → ((e : ℤ) × ((drv.probe w).0 ≡ err e) × ((drv.probe w).1.ledger ≡ w.ledger))
        ⊎ ((p : P) × ((drv.probe w).0 ≡ ok p)
            × Q p
            × ((w' : World R O)
                → w'.ledger ≡ (drv.probe w).1.ledger
                → ((drv.remove w').0 ≡ ok tt) × ((drv.remove w').1.ledger ≡ w.ledger)))

module _ {R O P : Type 0} (drv : DeviceDriver R O P) where
  -- A failed probe leaves the device unbound.
  pub handle : Event → Option P → Run R O (Option P)
  handle bind none = do
    probed ← attempt drv.probe
    pure (elim probed [ err _ ↦ none | ok p ↦ some p ])
  handle bind (some p) = pure (some p)
  handle unbind none = pure none
  handle unbind (some p) = do drv.remove; pure none

  pub handle_all : List Event → Option P → Run R O (Option P)
  handle_all [] bound = pure bound
  handle_all (e ∷ es) bound = handle e bound >>= handle_all es

  module _ (Q : P → Type 0) (tidy : IsTidy Q drv) where
    -- What is held while a device is bound is what its remove gives back.
    Holds : Ledger R → Option P → World R O → Type 0
    Holds l none w = w.ledger ≡ l
    Holds l (some p) w =
        Q p
        × ((w' : World R O)
            → w'.ledger ≡ w.ledger
            → ((drv.remove w').0 ≡ ok tt) × ((drv.remove w').1.ledger ≡ l))

    -- An action that returns a state of the device that fits what is then held.
    Keeps : Ledger R → Result (Option P) × World R O → Type 0
    Keeps l (r, w) = (b : Option P) × (r ≡ ok b) × Holds l b w

    handle-Keeps :
        (l : Ledger R) (e : Event) (b : Option P) (w : World R O)
        → Holds l b w
        → Keeps l (handle e b w)
    unfolding handle Holds Keeps ◌>>=◌ attempt pure
    handle-Keeps l bind none w h = elim (tidy.probed w) [
      | inl (e, q, same) ↦ (none, rw (q, ◌>>=◌) refl, same ∙ h)
      | inr (p, q, fine, back) ↦
          (some p, rw (q, ◌>>=◌) refl, (fine, λ w' e. ((back w' e).0, (back w' e).1 ∙ h)))
    ]
    handle-Keeps l bind (some p) w h = (some p, refl, h)
    handle-Keeps l unbind none w h = (none, refl, h)
    handle-Keeps l unbind (some p) w h =
        let (fine, same) = h.1 w refl in (none, rw (fine, ◌>>=◌) refl, rw (fine, ◌>>=◌) same)

    handle_all-Keeps :
        (l : Ledger R) (es : List Event) (b : Option P) (w : World R O)
        → Holds l b w
        → Keeps l (handle_all es b w)
    unfolding handle_all Keeps ◌>>=◌ pure
    handle_all-Keeps l [] b w h = (b, refl, h)
    handle_all-Keeps l (e ∷ es) b w h =
        let (b', q, h') = handle-Keeps l e b w h in
        rw (q, ◌>>=◌) (handle_all-Keeps l es b' (handle e b w).1 h')

    unbind-Holds :
        (l : Ledger R) (b : Option P) (w : World R O)
        → Holds l b w
        → ((p : P) → b ≡ some p → Q p)
          × ((handle unbind b w).0 ≡ ok none)
          × ((handle unbind b w).1.ledger ≡ l)
    unfolding handle Holds ◌>>=◌ pure
    unbind-Holds l none w h = ((λ p e. cc), refl, h)
    unbind-Holds l (some p) w (fine, back) =
        let (gone, same) = back w refl in
        (
          (λ p' e. let q : p ≡ p' = cc e in subst Q q fine),
          rw (gone, ◌>>=◌) refl,
          rw (gone, ◌>>=◌) same,
        )

    -- Whatever the core did to a device that was unbound at first: if it is bound, then `Q` holds of it; and after
    -- an unbind it is unbound, and what is held is what was held at first.
    pub unbind-handle_all :
        (es : List Event) (w : World R O)
        → let run = handle_all es none w in
          (b : Option P) × (run.0 ≡ ok b)
          × ((p : P) → b ≡ some p → Q p)
          × ((handle unbind b run.1).0 ≡ ok none)
          × ((handle unbind b run.1).1.ledger ≡ w.ledger)
    unfolding Holds Keeps
    unbind-handle_all es w =
        let (b, q, h) = handle_all-Keeps w.ledger es none w refl in
        let (fine, gone, left) = unbind-Holds w.ledger b (handle_all es none w).1 h in
        (b, q, fine, gone, left)
