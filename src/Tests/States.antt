-- ===== src/Tests/States.antt =====
-- The theorems on states at sample data.
use ker_sor_monitor.Prelude.{◌≡◌, refl, true, [], ◌∷◌}
use ker_sor_monitor.State.{
  State, planned, queued, dispatching, running, paused, done, failed, lost, transition, allowed,
  name, is_live, parse,
}
use ker_sor_monitor.State.Graph.{terminal_absorbs, done_needs_live, run, visits_live}

terminal_absorbs_example : run done (running ∷ queued ∷ failed ∷ []) ≡ done
terminal_absorbs_example = terminal_absorbs done (running ∷ queued ∷ failed ∷ []) refl (λ e. cc)

done_needs_live_example : visits_live queued (dispatching ∷ running ∷ done ∷ []) ≡ true
unfolding run ker_sor_monitor.State.move
done_needs_live_example =
    done_needs_live queued (dispatching ∷ running ∷ done ∷ []) refl (λ e. cc) refl
