-- ===== src/Driver/PlatformDriver.antt =====
-- code/examples/bus/platform_bus/platform_driver.c: a driver that only lets itself be bound.
use Prim.Native.String.{String}
use embedded_linux_bsp.Common.{
  ℕ, ◌≡◌, refl, ◌∙◌, ap, ◌⊎◌, inl, inr, true, Option, none, List, [], ◌∷◌, ℤ,
}
use embedded_linux_bsp.Common.World.{
  Result, Result-cases, ok, err, World, Run, pure, ◌>>=◌, ◌>>◌, ask, hold, give_back,
}
use embedded_linux_bsp.Common.Ledger.{Ledger, Resource, acquire, release, release-acquire}
use embedded_linux_bsp.Driver.Core.{
  DeviceDriver, Event, unbind, handle, handle_all, IsTidy, unbind-handle_all,
}

-- What `my_init` takes from the kernel: the registration of `my_platform_driver`.
pub data Object : Type 0 where
  registration : Object

instance abbrev pub object_resource : Resource Object
object_resource = record { same = λ a b. true; same_refl = λ a. refl }

abbrev pub Action : Type 0 → Type 0
Action = Run Object (Unit {0})

abbrev pub my_of_match : List String
my_of_match = "example,my-platform-dev" ∷ []

-- It prints, and returns 0.
pub my_platform_probe : Action (Unit {0})
my_platform_probe = pure tt

-- It prints, and returns 0.
pub my_platform_remove : Action (Unit {0})
my_platform_remove = pure tt

abbrev pub my_platform_driver : DeviceDriver Object (Unit {0}) (Unit {0})
my_platform_driver = record {
  name = "my_platform_dev";
  of_match_table = my_of_match;
  probe = my_platform_probe;
  remove = my_platform_remove;
}

-- `platform_driver_register` is the kernel's, as a parameter.
pub my_init : (platform_driver_register : ℕ → Result (Unit {0})) → Action (Unit {0})
my_init platform_driver_register = do ask platform_driver_register; hold registration

-- `platform_driver_unregister`, which unbinds the device first if it is bound
pub my_exit : Option (Unit {0}) → Action (Unit {0})
my_exit bound = do unbound ← handle my_platform_driver unbind bound; give_back registration

my_platform_driver-IsTidy : IsTidy (λ (_ : Unit {0}). Unit {0}) my_platform_driver
unfolding my_platform_probe my_platform_remove pure
my_platform_driver-IsTidy = record { probed = λ w. inr (tt, refl, tt, λ w' e. (refl, e)) }

-- What follows `my_init`: the driver core, and then `my_exit`.
abbrev pub loaded : List Event → Action (Unit {0})
loaded es = handle_all my_platform_driver es none >>= my_exit

exit-ends :
    (b : Option (Unit {0})) (l : Ledger Object) (w : World Object (Unit {0}))
    → (handle my_platform_driver unbind b w).0 ≡ ok none
    → (handle my_platform_driver unbind b w).1.ledger ≡ acquire registration l
    → ((my_exit b w).0 ≡ ok tt) × ((my_exit b w).1.ledger ≡ l)
unfolding my_exit ◌>>=◌ give_back pure
exit-ends b l w gone left = (
  rw (gone, ◌>>=◌) refl,
  rw (gone, ◌>>=◌) (ap (release registration) left ∙ release-acquire registration l),
)

loaded-ends :
    (es : List Event) (l : Ledger Object) (w : World Object (Unit {0}))
    → w.ledger ≡ acquire registration l
    → ((loaded es w).0 ≡ ok tt) × ((loaded es w).1.ledger ≡ l)
unfolding ◌>>=◌
loaded-ends es l w e =
    let (b, r, _, gone, left) =
      unbind-handle_all my_platform_driver (λ _. Unit) my_platform_driver-IsTidy es w in
    rw (r, ◌>>=◌) (exit-ends b l _ gone (left ∙ e))

-- If the registration is refused, then `my_init` fails and nothing is held more than before; else it succeeds, and
-- whatever the driver core binds and unbinds before it, `my_exit` succeeds and nothing is held more than before the load.
pub my_exit-my_init :
    (register : ℕ → Result (Unit {0})) (es : List Event) (w : World Object (Unit {0}))
    → let (ret, after) = my_init register w in
      (((e : ℤ) × (ret ≡ err e) × (after.ledger ≡ w.ledger))
        ⊎ ((ret ≡ ok tt) × ((loaded es after).0 ≡ ok tt) × ((loaded es after).1.ledger ≡ w.ledger)))
unfolding my_init my_exit ◌>>=◌ ask hold give_back pure
my_exit-my_init register es w = elim (Result-cases (register w.tick)) [
  | inl (e, q) ↦ inl (e, rw (q, ◌>>=◌) refl, rw (q, ◌>>=◌) refl)
  | inr (_, q) ↦
      let (fine, left) = loaded-ends es w.ledger _ (rw (q, ◌>>=◌) refl) in
      inr (rw (q, ◌>>=◌) refl, fine, left)
]
