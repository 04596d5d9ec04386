-- ===== src/Driver/FaultDevice/References.antt =====
-- The references to the page that page faults map.
use embedded_linux_bsp.Common.{
  ℕ, zero, suc, ◌+◌, ◌≡◌, ◌≢◌, refl, ◌∙◌, ap, ◌⊎◌, inl, inr, false, Bool-cases, ◌==◌, Option, none,
  some, List, [], ◌∷◌, ℤ, arith,
}
use embedded_linux_bsp.Common.World.{
  Result-cases, err, ok, World, pure, fail, ◌>>=◌, ◌>>◌, ask, hold, give_back, >>=-ok,
}
use embedded_linux_bsp.Common.Ledger.{
  Ledger, acquire, release, again, release-acquire, release-again, release-again_same,
}
use embedded_linux_bsp.Driver.User.{enomem}
use embedded_linux_bsp.Driver.FaultDevice.{
  Object, page_ref, miscdevice, object_resource, Action, Kernel, my_fault, my_init, my_exit,
}

-- Loading the driver fails with -ENOMEM and holds what it held, if there is no page; fails with the error of
-- `misc_register` and still holds the page, which nobody gives back; or holds the page and the device.
pub my_init_page :
    (k : Kernel) (w : World Object (Unit {0}))
    → let (ret, after) = my_init k w in
      let page = k.alloc_page w.tick in
      ((page ≡ 0) × (ret ≡ err enomem) × (after.ledger ≡ w.ledger))
      ⊎ ((page ≢ 0)
          × (((e : ℤ) × (k.misc_register (w.tick + 1) ≡ err e)
                × (ret ≡ err e)
                × (after.ledger ≡ acquire (page_ref page) w.ledger))
              ⊎ ((ret ≡ ok page)
                  × (after.ledger ≡ acquire miscdevice (acquire (page_ref page) w.ledger)))))
unfolding my_init ◌>>=◌ ask fail hold pure
my_init_page k w = elim (Bool-cases (k.alloc_page w.tick == 0)) [
  | inl null ↦ rw (null) (inl (ground (arith, null), refl, refl))
  | inr page ↦ elim (Result-cases (k.misc_register (w.tick + 1))) [
    | inl (e, q) ↦ rw (page, ◌>>=◌, q) (inr (ground (arith, page), inl (e, refl, refl, refl)))
    | inr (_, q) ↦ rw (page, ◌>>=◌, q) (inr (ground (arith, page), inr (refl, refl)))
  ]
]

-- A page fault of a process, and the end of a mapping, at which the kernel gives the reference back.
pub data Event : Type 0 where
  fault unmapped : Event

pub serve : ℕ → Event → Action (Unit {0})
serve page fault = my_fault page >>= λ _. pure tt
serve page unmapped = give_back (page_ref page)

pub serve_all : ℕ → List Event → Action (Unit {0})
serve_all page [] = pure tt
serve_all page (e ∷ es) = serve page e >> serve_all page es

-- How many mappings there are after the events, if each that ended was there.
abbrev pub mappings : ℕ → List Event → Option ℕ
mappings n [] = some n
mappings n (fault ∷ es) = mappings (suc n) es
mappings zero (unmapped ∷ es) = none
mappings (suc n) (unmapped ∷ es) = mappings n es

my_fault_page :
    (page : ℕ) (w : World Object (Unit {0}))
    → page ≢ 0
    → my_fault page w ≡ (ok page, record w { ledger = acquire (page_ref page) w.ledger })
unfolding my_fault ◌>>=◌ hold pure
my_fault_page page w nz = let t : (page == 0) ≡ false = ground (arith, nz) in rw t refl

serve_all-ledger :
    (page n m : ℕ) (es : List Event) (l : Ledger Object) (w : World Object (Unit {0}))
    → page ≢ 0
    → mappings n es ≡ some m
    → w.ledger ≡ again n (page_ref page) l
    → (serve_all page es w).1.ledger ≡ again m (page_ref page) l
unfolding serve_all serve ◌>>=◌ pure give_back again
serve_all-ledger page n m [] l w nz e q =
    let same : n ≡ m = cc e in q ∙ ap (λ k. again k (page_ref page) l) same
serve_all-ledger page n m (fault ∷ es) l w nz e q =
    let w' = record w { ledger = acquire (page_ref page) w.ledger } in
    let served : serve page fault w ≡ (ok tt, w') =
      >>=-ok (my_fault page) (λ _. pure tt) w w' page (my_fault_page page w nz) in
    ap (λ x. x.1.ledger) (>>=-ok (serve page fault) (λ _. serve_all page es) w w' tt served)
    ∙ serve_all-ledger page (suc n) m es l w' nz e (ap (acquire (page_ref page)) q)
serve_all-ledger page zero m (unmapped ∷ es) l w nz e q = cc e
serve_all-ledger page (suc n) m (unmapped ∷ es) l w nz e q =
    serve_all-ledger page n m es l _ nz e
      (ap (release (page_ref page)) q ∙ release-acquire (page_ref page) _)

-- A driver that holds its page and its device serves page faults, and mappings end, in any order in which each
-- that ends was there; then it is unloaded. What is left held is one reference for each mapping that has not ended:
-- the page is not freed under a process that has it mapped, and it is given back when the last mapping ends.
pub my_exit-again :
    (page m : ℕ) (es : List Event) (l : Ledger Object) (w : World Object (Unit {0}))
    → page ≢ 0
    → mappings 0 es ≡ some m
    → w.ledger ≡ acquire miscdevice (acquire (page_ref page) l)
    → (my_exit page (serve_all page es w).1).1.ledger ≡ again m (page_ref page) l
unfolding my_exit ◌>>=◌ give_back again
my_exit-again page m es l w nz e q =
    let t : (page == 0) ≡ false = ground (arith, nz) in
    rw (t, ◌>>=◌)
      (ap (λ x. release (page_ref page) (release miscdevice x))
          (serve_all-ledger page 0 m es _ w nz e q)
        ∙ ap (release (page_ref page)) (release-again miscdevice (page_ref page) m _ refl)
        ∙ ap (λ x. release (page_ref page) (again m (page_ref page) x))
            (release-acquire miscdevice _)
        ∙ release-again_same (page_ref page) m l)
