-- ===== src/Stream/Tests.antt =====
-- A job that is processed, reports its progress twice, and completes.
use extube.Prelude.{true, ◌≡◌, Option, none, some, List, [], ◌∷◌, ◌++◌, refl}
use extube.JobStore.{JobStatus, processing, completed, Progress, Job, new_job}
use extube.Stream.{Look, timeout, changed, final_of, event_generator}
use extube.Stream.Shown.{News, shown, latest, events_of, event_generator-shown}

abbrev half : Progress
half = record {
  stage = "reconstruction";
  percent = 50;
  message = "Sparse";
  colmap_step = none;
  attempt = none;
  max_retries = none;
}

abbrev job : JobStatus → Option Progress → Job
job status progress = record (new_job "0123456789ab" status "u" (some "ann")) {
  progress = progress;
}

abbrev looks : List Look
looks =
    record { elapsed = 0; row = some (job processing none) }
    ∷ record { elapsed = 1; row = some (job processing (some half)) }
    ∷ record { elapsed = 2; row = some (job processing (some half)) }
    ∷ []

abbrev last_look : Look
last_look = record { elapsed = 3; row = some (job completed (some half)) }

event_generator-shown_example :
    News none (events_of 600 none looks)
    × (shown none (events_of 600 none looks) ≡ latest none looks)
    × (event_generator 600 none (looks ++ last_look ∷ [])
        ≡ (events_of 600 none looks ++ final_of (job completed (some half)) ∷ [], true))
unfolding final_of new_job
event_generator-shown_example =
    event_generator-shown 600 looks last_look [] (final_of (job completed (some half)) ∷ [])
      (refl, (refl, (refl, tt))) refl

sends_a_change_once : events_of 600 none looks ≡ changed processing (some half) ∷ []
unfolding event_generator new_job
sends_a_change_once = refl

times_out : events_of 1 none (last_look ∷ []) ≡ timeout ∷ []
unfolding event_generator new_job
times_out = refl
