-- ===== src/Lib.antt =====
-- Verification of the example programs and drivers of embedded-linux-bsp.
--
-- The repository is a set of examples that stand alone, each with its own state: userspace programs on
-- the DRM/KMS interface, kernel drivers, and a measured-boot hash chain. They share conventions rather
-- than code: a C function returns 0 or an error, resources are acquired one after another and given
-- back at labels in reverse order.
--
--   Common           numbers, lists and tests.
--   Common.Ledger    what a program holds; giving back what is not held is counted as a fault.
--   Common.World     a C function as a computation: it returns a result or an error number, and
--                    threads the ledger, what was put out, and a counter of the calls out of the program.
--                    World.Balance, World.Ensures, World.Blames, World.Puts and World.Starts have rules for its bind,
--                    brackets and labels.
--
--   HashChain        code/examples/security/hash_chain_minimal/hash_chain_minimal.c: `sha256_file`,
--                    `extend_chain`, `print_hex` and `main`. OpenSSL and the files are parameters
--                    (Env); Digest says what the program computes, by a fold over the measurements,
--                    Collision and Commitment what its last line commits to, Complete when it
--                    succeeds, Frame what it holds.
--
--   Drm.Env          the DRM interface and libdrm, as a parameter, and the objects they hand out.
--   Drm.Dumb         `create_dumb_buffer`, `destroy_dumb_buffer`; Balance, Origin and Made say what a
--                    buffer holds, when its identifiers were given, and what it is made of;
--   Drm.Fill         `fill_color`, on bytes;
--   Drm.Connector    `find_connector_crtc`; First and Found say what it finds, Missing why it fails;
--   Drm.Atomic       the rest of
--                    code/examples/drm/drm_atomic_commit_flow/userspace/atomic_modeset_minimal.c.
--                    Planes has its look-ups; Balance and Left say what is held at the end, PropId and
--                    Lookup what is found, Missing why it is not, Request and Committed what is
--                    committed, Shown what the program puts on the screen. Drm.Working has a device
--                    that gives neither this program nor Drm.Modeset a reason to show nothing.
--   Drm.PageFlip     code/examples/drm/drm_vblank_pageflip_flow/userspace/page_flip_minimal.c;
--                    Screen, Tearing and Untorn follow the screen through its calls, Frames
--                    the frames that it shows; Balance, Release, Pair and Ending have what it gives back.
--   Drm.Modeset      code/examples/drm/drm_plane_crtc_flow/userspace/modeset_minimal.c; Left says
--                    what it holds at its end, Shown and Frees what it shows and its exit status.
--
--   Drm.SimpleKms    code/examples/drm/drm_simple_kms/simple_kms.c; Probe has the calls of a
--                    probe, Setup the order in which they set the device up.
--   Drm.GemShmem     code/examples/drm/drm_gem_shmem_flow/gem_shmem_skeleton.c.
--
--   Drm.DumbFlow     code/examples/drm/dumb_buffer_flow/userspace/dumb_buffer.c.
--   Drm.PrimeFlow    code/examples/drm/dma_buf_prime_flow/userspace/prime_fd_notes.c.
--
--   Driver.CharDevice  code/examples/kernel/char_device/char_device.c; Buffer has the handlers,
--                      Register what they promise over any sequence of calls,
--                      Lifecycle the module's init and exit.
--   Driver.MiscDevice  code/examples/kernel/miscdevice/misc_device.c.
--   Driver.Core        a driver by its table, probe and remove, and the laws of the two, which the panel and the
--                      platform driver fill; what the driver core does is a sequence of events.
--   Driver.PlatformDriver  code/examples/bus/platform_bus/platform_driver.c.
--   Driver.Panel       code/examples/drm/drm_mipi_dsi_panel_flow/panel_dsi_minimal.c; History has the
--                      lifecycle calls in any order, Probe the binding of the driver.
--   Driver.SharedCounter  code/examples/synchronization/mutex/mutex_example.c; Text has the texts that one
--                      process reads and writes, Interleaving, Linear and Total the steps of many.
--   Driver.SpinCounter  code/examples/synchronization/spinlock/spinlock_example.c, the same functions
--                      under a spinlock.
--   Driver.WaitQueue   code/examples/synchronization/waitqueue/waitqueue_example.c; Causes, Latest and Sleepers
--                      have any interleaving of its callers, Sequences two of them.
--   Driver.Completion  code/examples/synchronization/completion/completion_example.c; Releases
--                      counts the reads that have gone on, Progress says when a read goes on.
--   Driver.CompletionExample  code/examples/completion_example.c and code/examples/spinlock_example.c;
--                      Waiting has the init and its worker under any sequence of turns.
--   Driver.FaultDevice  code/examples/memory/page_fault_example/kernel/fault_dev.c; References counts
--                      the references to its page.
--   Driver.FaultUser   code/examples/memory/page_fault_example/userspace/fault_user.c; Touching has it
--                      together with the driver.
--   Driver.IoctlUser   code/examples/userspace/ioctl_basic/ioctl_user.c and ioctl_common.h beside it; Values
--                      has it with the character device.
--   Driver.Allocation  code/examples/memory/kmalloc_vs_vmalloc/mem_alloc.c and
--                      code/examples/memory/dma_alloc_coherent/dma_alloc.c.
--   Driver.MutexExample  code/examples/mutex_example.c; Invariant, Progress and Ending have the two
--                      threads under any sequence of turns.
--   Driver.MmapDevice  code/examples/memory/mmap_driver_example/kernel/mmap_dev.c; Mapping has `my_mmap`,
--                      Lifecycle init and exit, Page what the page shows.
--   Driver.MmapUser    code/examples/memory/mmap_driver_example/userspace/mmap_user.c, on the page of the
--                      driver; Hexdump has its dump, Writing the two together.
--
-- Names are the source's. A local variable that a function changes is an argument or a result; a pointer
-- argument that is written is part of the result; what is printed is left out, except for the
-- digests and for what the mmap program shows of the page. A call out of the repository answers by the
-- moment of the call, so that two calls may answer differently. Unsigned arithmetic that can wrap is
-- written out (`row_offset`, `shift_16`).
--
-- Fuel: `absorb_file` reads chunks of at most 4096 bytes and gets one round more than the file has
-- bytes; each round but the last takes at least one byte. `flip_loop` runs its 19 rounds. The wait
-- for page flips consumes a list of the kernel's answers, and says that it still waits if they are used
-- up.
--
-- Processes and threads that run at the same time are moves: a call goes step by step, and a list of moves,
-- or a step relation, says who goes next (SharedCounter, WaitQueue, Completion, CompletionExample,
-- MutexExample). A lock, a wait queue and a completion are what the kernel documents of them: a call that must
-- wait has no step until it may go on.
--
-- Not modelled: the text of messages, the contents of memory that a program does not own, and module macros;
-- the programs and modules that only print (hello module, page flip notes).
pub mod Common
pub mod HashChain
pub mod Drm
pub mod Driver
