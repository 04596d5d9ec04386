-- ===== src/Driver/CompletionExample/Tests.antt =====
-- The worker completes before the init waits.
use embedded_linux_bsp.Common.{◌≡◌, refl, ◌⊎◌, List, [], ◌∷◌, pos}
use embedded_linux_bsp.Common.World.{Result, ok, err}
use embedded_linux_bsp.Driver.CompletionExample.{
  Who, worker, init, loading, not_started, finished, worker_thread, completion_example_init, step,
  turn, schedule,
}
use embedded_linux_bsp.Driver.CompletionExample.Waiting.{schedule-returned}

abbrev early : List Who
early = init ∷ worker ∷ worker ∷ init ∷ []

abbrev started : Result (Unit {0})
started = ok tt

schedule-returned_example :
    ((started ≡ err (pos 0)) × ((schedule started loading early).worker ≡ not_started))
    ⊎ ((pos 0 ≡ pos 0)
        × ((schedule started loading early).worker ≡ finished)
        × ((schedule started loading early).done ≡ 0))
unfolding schedule turn step worker_thread completion_example_init
schedule-returned_example = schedule-returned started early (pos 0) refl
