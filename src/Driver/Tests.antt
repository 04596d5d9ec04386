-- ===== src/Driver/Tests.antt =====
-- The drivers on a kernel that refuses the device node, and copies all or nothing.
use embedded_linux_bsp.Common.{
  if◌then◌else◌, ◌==◌, Option, ℕ, ◌+◌, ◌*◌, ◌<◌, ◌≡◌, refl, true, false, ◌⊎◌, List, [], ◌∷◌, ◌++◌,
  length-replicate, none, some, ◌-◌, pos, negsuc, arith,
}
use embedded_linux_bsp.Common.World.{ok, err}
use embedded_linux_bsp.Driver.User.{einval, eagain}
use embedded_linux_bsp.Driver.CharDevice.{
  my_fops, Device, fresh_device, my_read, my_write, my_init, my_exit,
}
use embedded_linux_bsp.Driver.Samples.{honest, honest_laws}
use embedded_linux_bsp.Driver.CharDevice
use embedded_linux_bsp.Driver.CharDevice.Buffer.{IsValid}
use embedded_linux_bsp.Driver.CharDevice.Register.{
  Call, open_file, release, read, write, ioctl, AllowsAll, content, answer_all,
  answer_all-AllowsAll,
}
use embedded_linux_bsp.Driver.MutexExample.{
  Who, thread1, thread2, mutex_example_init, worker_thread, step, turn, schedule,
}
use embedded_linux_bsp.Driver.MmapDevice
use embedded_linux_bsp.Driver.MmapDevice.{State, Area, my_mmap}
use embedded_linux_bsp.Driver.MmapDevice.Mapping.{IsMapped, my_mmap-IsMapped}
use embedded_linux_bsp.Driver.MmapDevice.Lifecycle.{Ended, my_init-Ended}
use embedded_linux_bsp.Driver.Panel
use embedded_linux_bsp.Driver.Panel.{
  MinimalPanel, fresh_panel, Op, prepare, enable, unprepare, minimal_panel_probe,
  minimal_panel_remove, minimal_panel_driver, dsi_config, DsiConfig,
}
use embedded_linux_bsp.Driver.Panel.History.{run, last_power, last_output, switches, run-history}
use embedded_linux_bsp.Driver.Panel.Probe.{IsConfigured, minimal_panel_unbinds}
use embedded_linux_bsp.Driver.Core.{Event, bind, unbind, handle, handle_all}

fresh-IsValid : IsValid fresh_device
fresh-IsValid = record { whole = length-replicate {0} {A = ℕ} 128 0; within = omega arith }

abbrev hello : List ℕ
hello = 104 ∷ 101 ∷ 108 ∷ 108 ∷ 111 ∷ []

abbrev some_calls : List Call
some_calls = open_file ∷ write hello 5 ∷ ioctl 7 [] ∷ read 3 ∷ read 9 ∷ release ∷ []

answer_all-AllowsAll_example :
    let (dev', replies) = answer_all (my_fops honest) fresh_device some_calls in
    AllowsAll (content fresh_device) replies (content dev') × IsValid dev'
answer_all-AllowsAll_example =
    answer_all-AllowsAll honest honest_laws fresh_device some_calls fresh-IsValid (omega arith, tt)

abbrev begin : CharDevice.Session
begin = record { tick = 0; ledger = record { live = []; faults = 0 }; out = [] }

-- It refuses the device node.
abbrev nodeless : CharDevice.Kernel
nodeless = record {
  alloc_chrdev_region = λ t. ok tt;
  cdev_add = λ t. ok tt;
  class_create = λ t. ok tt;
  device_create = λ t. err (negsuc 11);
}

abbrev calls : List Op
calls = prepare ∷ prepare ∷ enable ∷ unprepare ∷ []

run-history_example : run calls fresh_panel ≡ record {
  prepared = last_power fresh_panel.prepared calls;
  enabled = last_output fresh_panel.enabled calls;
  slept = fresh_panel.slept + 120 * switches fresh_panel.prepared calls;
}
run-history_example = run-history calls fresh_panel

abbrev dsi_begin : Panel.Session
dsi_begin = record { tick = 0; ledger = record { live = []; faults = 0 }; out = [] }

abbrev cooperating : Panel.Kernel
cooperating = record {
  devm_kzalloc = λ t. ok tt;
  mipi_dsi_attach = λ t. if t == 1 then err (negsuc 11) else ok tt;
}

-- The first probe fails, the second is followed by a remove, the third is not.
abbrev binds : List Event
binds = bind ∷ bind ∷ unbind ∷ bind ∷ []

minimal_panel_unbinds_example :
    let run = handle_all (minimal_panel_driver cooperating) binds none dsi_begin in
    (b : Option DsiConfig) × (run.0 ≡ ok b)
    × ((config : DsiConfig) → b ≡ some config → IsConfigured config)
    × ((handle (minimal_panel_driver cooperating) unbind b run.1).0 ≡ ok none)
    × ((handle (minimal_panel_driver cooperating) unbind b run.1).1.ledger ≡ dsi_begin.ledger)
minimal_panel_unbinds_example = minimal_panel_unbinds cooperating binds dsi_begin

-- thread2 tries to lock while thread1 is inside.
abbrev turns : List Who
turns = thread1 ∷ thread2 ∷ thread1 ∷ thread1 ∷ []

-- one round without the other thread
abbrev round : Who → List Who
round who = who ∷ who ∷ who ∷ who ∷ []

abbrev rounds : Who → List Who
rounds who = round who ++ round who ++ round who ++ round who ++ round who

abbrev both : List Who
both = thread1 ∷ thread2 ∷ thread1 ∷ thread1 ∷ thread1 ∷ rounds thread2 ++ rounds thread1

both_1 : (schedule mutex_example_init both).worker1.i ≡ 5
unfolding schedule turn step worker_thread
both_1 = refl

both_2 : (schedule mutex_example_init both).worker2.i ≡ 5
unfolding schedule turn step worker_thread
both_2 = refl

abbrev mmap_begin : MmapDevice.Session
mmap_begin = record { tick = 0; ledger = record { live = []; faults = 0 }; out = [] }

-- It refuses the registration.
abbrev unregistering : MmapDevice.Kernel
unregistering = record {
  alloc_page = λ t. ok 77;
  page_address = λ pfn. some 4096;
  misc_register = λ t. err (negsuc 15);
}

my_init-Ended_example :
    Ended unregistering mmap_begin.ledger (MmapDevice.my_init unregistering mmap_begin)
my_init-Ended_example = my_init-Ended unregistering mmap_begin

abbrev one_page : State
one_page = record { shared_page = some 77; kaddr = some 4096 }

abbrev area : Area
area = record { vm_start = 8192; vm_end = 12288; fixed = false; mapped = [] }

my_mmap-IsMapped_example :
    let (after, ret) = my_mmap true one_page area in
    ((ret ≡ pos 0) × IsMapped one_page area after)
    ⊎ (((ret ≡ einval) × ((after ≡ area) × ((one_page.shared_page ≡ none) ⊎ (4096 < 12288 - 8192))))
        ⊎ ((ret ≡ eagain) × ((true ≡ false) × (after.mapped ≡ area.mapped))))
my_mmap-IsMapped_example = my_mmap-IsMapped true one_page area (omega arith) (omega arith)
