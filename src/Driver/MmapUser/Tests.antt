-- ===== src/Driver/MmapUser/Tests.antt =====
-- The program on the page as the driver has left it, and a dump of seventeen bytes.
use embedded_linux_bsp.Common.{
  ℕ, ◌≡◌, ◌/◌, true, false, refl, some, List, [], ◌∷◌, take, replicate, length-replicate, pos,
  arith,
}
use embedded_linux_bsp.Common.World.{ok, World, pure, ◌>>=◌, attempt, ask, emit, hold, give_back}
use embedded_linux_bsp.Driver.Samples.{honest, honest_laws}
use embedded_linux_bsp.Driver.MmapDevice.{State, Area, my_read, my_mmap, vsize}
use embedded_linux_bsp.Driver.MmapDevice.Page.{snprintf}
use embedded_linux_bsp.Driver.MmapUser.{
  hexdump_head, user_text, Object, Kernel, Frames, map_shared, store, show_and_write, main,
}
use embedded_linux_bsp.Driver.MmapUser.Writing.{my_read-main}
use embedded_linux_bsp.Driver.MmapUser.Hexdump.{lines, hexdump_head-lines}

-- The driver's page is the frame 9, which the kernel maps at 8192.
abbrev fine : Kernel
fine = record { open_device = λ t. ok tt; mmap = λ t n p s. ok (8192, 9) }

abbrev begin : World Object (List ℕ)
begin = record { tick = 0; ledger = record { live = []; faults = 0 }; out = [] }

abbrev loaded : State
loaded = record { shared_page = some 9; kaddr = some 36864 }

abbrev sevens : Frames
sevens f = replicate 4096 7

abbrev written : Frames
written = store map_shared 9 (snprintf 4096 user_text (sevens 9)) sevens

abbrev area : Area
area = record { vm_start = 8192; vm_end = 12288; fixed = false; mapped = [] }

abbrev area_mapped : Area
area_mapped = record {
  vm_start = 8192;
  vm_end = 12288;
  fixed = true;
  mapped = (8192, (9, 4096)) ∷ [];
}

maps : my_mmap true loaded area ≡ (area_mapped, pos 0)
unfolding my_mmap vsize
maps = refl

my_read-main_example :
    (my_read honest (λ a. written (a / 4096)) loaded 5 ≡ (take 5 user_text, pos 5))
    × ((main fine sevens begin).1.ledger ≡ begin.ledger)
unfolding main show_and_write store ◌>>=◌ attempt ask emit hold give_back pure
my_read-main_example =
    my_read-main honest honest_laws fine (λ a. a / 4096) sevens written begin loaded area
      area_mapped 36864 9 9 5 refl refl refl (length-replicate {0} {A = ℕ} 4096 7) (omega arith)
      (omega arith) maps refl refl refl (omega arith) refl

hexdump_head-lines_example : hexdump_head (replicate 17 255) ≡ lines 17 (replicate 17 255)
hexdump_head-lines_example = hexdump_head-lines (replicate 17 255)
