-- ===== src/QueueManager/Tests.antt =====
-- The queue of src/api/queue_manager.py on concrete calls, over the model of Redis.
use extube.Prelude.{◌+◌, ◌≡◌, true, false, List, [], ◌∷◌, refl, arith, length, String, count}
use extube.Prelude.Dict
use extube.Prelude.Text.{str_ltb}
use extube.Redis.{Redis, rank_insert, erase, index, is_before}
use extube.Redis.Model.{redis_model, no_data}
use extube.QueueManager.{high, normal, JobMeta, enqueue, get_position, get_status}
use extube.QueueManager.Order.{Entry, is_ahead, enqueue-is_ahead}
use extube.QueueManager.Lifecycle.{
  Call, enqueues, activates, phase, perform_all, perform_all-follow,
}
use extube.QueueManager.Status.{shown, get_status-get_position}

abbrev R : Redis JobMeta
R = redis_model JobMeta

abbrev script : List Call
script = enqueues "a" normal 10 ∷ enqueues "b" normal 20 ∷ enqueues "c" high 30 ∷ activates "a" ∷ []

abbrev filled : R.Db
filled = perform_all R (enqueues "a" normal 10 ∷ enqueues "b" normal 20 ∷ []) (no_data JobMeta)

abbrev waiting : List Entry
waiting =
    record { job_id = "a"; priority = normal; time = 10 }
    ∷ record { job_id = "b"; priority = normal; time = 20 }
    ∷ []

-- A high job passes the two normal jobs, and a third normal job stands behind them.
positions : ((enqueue R "c" high 30 filled).1 ≡ 1) × ((enqueue R "d" normal 30 filled).1 ≡ 3)
unfolding perform_all enqueue Dict.get_or Dict.put rank_insert erase index is_before str_ltb
positions = (refl, refl)

enqueue-is_ahead_example :
    (enqueue R "c" high 30 filled).1 ≡ count (is_ahead "c" high 30) waiting + 1
unfolding perform_all enqueue Dict.get_or Dict.put rank_insert erase is_before str_ltb
enqueue-is_ahead_example =
    enqueue-is_ahead R "c" high 30 filled waiting refl
      (refl, omega arith, omega arith, (refl, omega arith, omega arith, tt))

perform_all-follow_example :
    phase R "a" (perform_all R script (no_data JobMeta)) ≡ record { waiting = false; active = true }
perform_all-follow_example = perform_all-follow R "a" script (no_data JobMeta)

get_status-get_position_example :
    ((job_id : String)
      → get_position R job_id filled ≡ shown job_id (get_status R 1 filled).waiting_jobs)
    × ((get_status R 1 filled).pending_count ≡ length (get_status R 1 filled).waiting_jobs)
get_status-get_position_example = get_status-get_position R 1 filled
