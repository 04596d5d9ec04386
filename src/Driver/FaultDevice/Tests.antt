-- ===== src/Driver/FaultDevice/Tests.antt =====
-- A page that is mapped twice, one mapping of which ends.
use embedded_linux_bsp.Common.{◌≡◌, ◌≢◌, refl, ◌⊎◌, ℤ, [], ◌∷◌, minus, arith}
use embedded_linux_bsp.Common.World.{err, ok, World}
use embedded_linux_bsp.Common.Ledger.{Ledger, acquire, again}
use embedded_linux_bsp.Driver.User.{enomem}
use embedded_linux_bsp.Driver.FaultDevice.{
  Object, page_ref, miscdevice, object_resource, Kernel, my_init, my_exit,
}
use embedded_linux_bsp.Driver.FaultDevice.References.{
  fault, unmapped, serve_all, my_init_page, my_exit-again,
}

-- The device is refused.
abbrev busy : Kernel
busy = record { alloc_page = λ t. 4096; misc_register = λ t. err (minus 16) }

abbrev nothing : Ledger Object
nothing = record { live = []; faults = 0 }

abbrev begin : World Object (Unit {0})
begin = record { tick = 0; ledger = nothing; out = [] }

abbrev loaded : World Object (Unit {0})
loaded = record {
  tick = 2;
  ledger = acquire miscdevice (acquire (page_ref 4096) nothing);
  out = [];
}

my_init_page_example :
    ((busy.alloc_page 0 ≡ 0)
      × ((my_init busy begin).0 ≡ err enomem)
      × ((my_init busy begin).1.ledger ≡ nothing))
    ⊎ ((busy.alloc_page 0 ≢ 0)
        × (((e : ℤ) × (busy.misc_register 1 ≡ err e)
              × ((my_init busy begin).0 ≡ err e)
              × ((my_init busy begin).1.ledger ≡ acquire (page_ref 4096) nothing))
            ⊎ (((my_init busy begin).0 ≡ ok 4096)
                × ((my_init busy begin).1.ledger
                    ≡ acquire miscdevice (acquire (page_ref 4096) nothing)))))
my_init_page_example = my_init_page busy begin

my_exit-again_example :
    (my_exit 4096 (serve_all 4096 (fault ∷ fault ∷ unmapped ∷ []) loaded).1).1.ledger
    ≡ again 1 (page_ref 4096) nothing
my_exit-again_example =
    my_exit-again 4096 1 (fault ∷ fault ∷ unmapped ∷ []) nothing loaded (omega arith) refl refl
