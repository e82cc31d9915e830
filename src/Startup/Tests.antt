-- ===== src/Startup/Tests.antt =====
-- The start of a server whose table holds an old job, one that was running, and a finished one.
use extube.Prelude.{ℕ, ◌*◌, ◌≡◌, false, none, [], ◌∷◌, refl}
use extube.JobStore.{processing, completed, Table, new_job, has_id}
use extube.JobStore.Keys.{IsKeyed}
use extube.Cleanup.{Rmtree}
use extube.Config.{default_settings}
use extube.Startup.{Server, start_up, shut_down}
use extube.Startup.Recovery.{Recovers, start_up-Recovers}

-- A day and an hour after the first job, in ticks.
abbrev now : ℕ
now = 25 * 3600 * 1000000

abbrev t : Table
t =
    record { job = new_job "old" completed "u" none; created_at = 5 }
    ∷ record { job = new_job "run" processing "u" none; created_at = now }
    ∷ record { job = new_job "end" completed "u" none; created_at = now }
    ∷ []

-- No directory stays.
abbrev rmtree : Rmtree
rmtree id = none

abbrev server : Server
server = record {
  table = t;
  disk = ("old", "download" ∷ []) ∷ ("end", "download" ∷ []) ∷ [];
  subscriber = record { is_set = false; started = 0 };
}

keyed : IsKeyed t
unfolding new_job has_id
keyed = (refl, (refl, (refl, tt)))

start_up-Recovers_example :
    Recovers rmtree default_settings now server (start_up rmtree default_settings now server)
start_up-Recovers_example = start_up-Recovers rmtree default_settings now server keyed

logs_two : (start_up rmtree default_settings now server).1 ≡ (1, 1)
unfolding start_up new_job
logs_two = refl

one_thread :
    (start_up rmtree default_settings now
      (start_up rmtree default_settings now server).0).0.subscriber.started
    ≡ 1
unfolding start_up
one_thread = refl

stops : (shut_down (start_up rmtree default_settings now server).0).subscriber.is_set ≡ false
unfolding shut_down
stops = refl
