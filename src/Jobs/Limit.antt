-- ===== src/Jobs/Limit.antt =====
-- How many active jobs a user can have by the requests of src/api/routers/jobs.py.
use extube.Prelude.{
  ℕ, suc, ◌+◌, ◌≤◌, ◌≡◌, String, Bool, true, false, ◌||◌, Option, none, some, List, [], ◌∷◌, ◌++◌,
  arith, refl, ap, ◌∙◌, str_eq, eq_iff, leb, any, count, count-append, Bool-cases, inl, inr,
  if◌then◌else◌,
}
use extube.JobStore
use extube.JobStore.{
  JobStatus, pending, processing, completed, failed, retrying, cancelled, Job, Row, Table, Field,
  Result, status_eq, matches, owned_by, has_id, is_stale, update_rows, set_fields, new_job,
  list_jobs,
}
use extube.Redis.{Redis}
use extube.QueueManager.{JobMeta, cancel}
use extube.Http.{Reply, ok, http}
use extube.Jobs.{
  Settings, JobCreate, World, save, remove_dir, start_job, create_job, create_checked,
  create_unless, create_limited, delete_found, cancel_found, enqueue_job, active_count,
  cancel_message, delete_job, cancel_job,
}
use extube.Jobs.Checks.{check_video, get_user_job}
use extube.Jobs.Requests.{Request, creating, deleting, retry, cancelling, handle, remove_dir-table}
use extube.Jobs.Active.{is_counted, active_count-count, count-keep-le, count-update_rows-le}

abbrev pub is_retry : Request → Bool
is_retry (retry k now) = true
is_retry _ = false

-- Requests, each with its user.
unfoldable pub handle_each :
    (R : Redis JobMeta) → Settings → List (String × Request) → World R → World R
unfolding handle
handle_each R s [] w = w
handle_each R s ((user_id, request) ∷ requests) w =
    handle_each R s requests (handle R s user_id request w)

module _ (R : Redis JobMeta) (s : Settings) (u : String) where
  abbrev counted : World R → ℕ
  counted w = count (is_counted u) w.table

  save-cancelled-le :
      (k message : String) (w : World R)
      → counted (save R k (Field.status cancelled ∷ Field.error (some message) ∷ []) w) ≤ counted w
  unfolding save JobStore.update JobStore.any_refused set_fields is_stale status_eq
  save-cancelled-le k message w =
      count-update_rows-le (is_counted u) (has_id k)
        (set_fields (Field.status cancelled ∷ Field.error (some message) ∷ [])) w.table (λ r e. cc)

  save-params-le :
      (k : String) (body : JobCreate) (w : World R)
      → counted (save R k (Field.params (some body.params) ∷ []) w) ≤ counted w
  unfolding save JobStore.update JobStore.any_refused set_fields is_stale status_eq owned_by
  save-params-le k body w =
      count-update_rows-le (is_counted u) (has_id k)
        (set_fields (Field.params (some body.params) ∷ [])) w.table (λ r e. e)

  remove_dir-same : (k : String) (w : World R) → counted (remove_dir R s k w) ≡ counted w
  remove_dir-same k w = ap (count (is_counted u)) (remove_dir-table R s u k w)

  delete_found-le :
      (k : String) (w : World R) (found : Reply Job)
      → counted (delete_found R s k w found).0 ≤ counted w
  unfolding delete_found JobStore.delete
  delete_found-le k w (http code) = omega arith
  delete_found-le k w (ok job) =
      elim (Bool-cases (status_eq job.status processing || status_eq job.status retrying)) [
        | inl busy ↦ rw busy (omega arith)
        | inr idle ↦ rw idle (
            omega (
              arith,
              count-keep-le (is_counted u) (λ r. if has_id k r then false else true)
                  (remove_dir R s k w).table,
              remove_dir-same k w,
            ))
      ]

  cancel_found-le :
      (k : String) (w : World R) (found : Reply Job)
      → counted (cancel_found R s k w found).0 ≤ counted w
  unfolding cancel_found
  cancel_found-le k w (http code) = omega arith
  cancel_found-le k w (ok job) =
      elim (Bool-cases (
        status_eq job.status pending
        || status_eq job.status processing
        || status_eq job.status retrying)) [
          | inl under_way ↦
              let w₁ : World R = record w { redis = (cancel R k w.redis).0 } in
              let w₂ : World R =
                save R k (Field.status cancelled ∷ Field.error (some (cancel_message R)) ∷ []) w₁ in
              let w₃ : World R = record w₂ {
                published = w₂.published ++ (k, cancel_message R) ∷ [];
              } in
              let saved_le : counted w₂ ≤ counted w = save-cancelled-le k (cancel_message R) w₁ in
              let removed : counted (remove_dir R s k w₃) ≡ counted w₂ = remove_dir-same k w₃ in
              rw under_way (omega (arith, saved_le, removed))
          | inr ended ↦ rw ended (omega arith)
        ]

  -- A new row counts for its owner.
  abbrev one_if : Bool → ℕ
  one_if b = if b then 1 else 0

  new_row-counted :
      (k v url : String) (now : ℕ) (t : Table)
      → count
          (is_counted u)
          (t ++ record { job = new_job k pending url (some v); created_at = now } ∷ [])
        ≡ count (is_counted u) t + one_if (str_eq v u)
  unfolding new_job is_stale status_eq owned_by
  new_row-counted k v url now t =
      count-append (is_counted u) t
        (record { job = new_job k pending url (some v); created_at = now } ∷ [])

  start_job-le :
      (k v : String) (body : JobCreate) (now : ℕ) (w : World R)
      → counted (start_job R k v body now w).0 ≤ counted w + one_if (str_eq v u)
  unfolding start_job enqueue_job JobStore.create
  start_job-le k v body now w = elim (Bool-cases (any (has_id k) w.table)) [
    | inl found ↦ rw (found, start_job) (omega arith)
    | inr absent ↦
        let row : Row = record { job = new_job k pending body.url (some v); created_at = now } in
        let w₁ : World R = record w { table = w.table ++ row ∷ [] } in
        rw (absent, start_job)
          (omega (arith, save-params-le k body w₁, new_row-counted k v body.url now w.table))
  ]

  module _ (n : ℕ) (within : s.max_jobs_per_user ≤ n) where
    create_limited-le :
        (k v : String) (body : JobCreate) (now : ℕ) (w : World R)
        → counted w ≤ n
        → counted (create_limited R s k v body now w).0 ≤ n
    unfolding create_limited
    create_limited-le k v body now w h =
        elim (Bool-cases (leb s.max_jobs_per_user (active_count v w.table))) [
          | inl full ↦ rw full h
          | inr room ↦ rw room (elim (Bool-cases (str_eq v u)) [
            | inl own ↦
                let mine : active_count v w.table ≡ counted w =
                  ap (λ i. active_count i w.table) ((eq_iff v u).0 own)
                  ∙ active_count-count u w.table in
                let few = below s.max_jobs_per_user (active_count v w.table) room in
                let added : one_if (str_eq v u) ≡ 1 = rw own refl in
                omega (arith, start_job-le k v body now w, mine, few, added)
            | inr foreign ↦
                let added : one_if (str_eq v u) ≡ 0 = rw foreign refl in
                omega (arith, start_job-le k v body now w, added)
          ])
        ]
      where
        below : (limit m : ℕ) → leb limit m ≡ false → suc m ≤ limit
        below limit m h = ground arith

    create_unless-le :
        (k v : String) (body : JobCreate) (now : ℕ) (w : World R) (found : Option Job)
        → counted w ≤ n
        → counted (create_unless R s k v body now w found).0 ≤ n
    unfolding create_unless
    create_unless-le k v body now w none h = create_limited-le k v body now w h
    create_unless-le k v body now w (some existing) h = h

    create_checked-le :
        (k v : String) (body : JobCreate) (now : ℕ) (w : World R) (checked : Reply (Unit {0}))
        → counted w ≤ n
        → counted (create_checked R s k v body now w checked).0 ≤ n
    unfolding create_checked
    create_checked-le k v body now w (http code) h = h
    create_checked-le k v body now w (ok _) h = create_unless-le k v body now w _ h

    handle-le :
        (v : String) (request : Request) (w : World R)
        → is_retry request ≡ false
        → counted w ≤ n
        → counted (handle R s v request w) ≤ n
    unfolding handle create_job delete_job cancel_job
    handle-le v (creating k body meta now) w h bound =
        create_checked-le k v body now w (check_video s body.url meta) bound
    handle-le v (deleting k) w h bound =
        omega (arith, delete_found-le k w (get_user_job k v w.table), bound)
    handle-le v (retry k now) w h bound = cc
    handle-le v (cancelling k) w h bound =
        omega (arith, cancel_found-le k w (get_user_job k v w.table), bound)

    served-le :
        (requests : List (String × Request)) (w : World R)
        → any (λ x. is_retry x.1) requests ≡ false
        → counted w ≤ n
        → counted (handle_each R s requests w) ≤ n
    unfolding handle_each
    served-le [] w h bound = bound
    served-le ((v, request) ∷ requests) w h bound = elim (Bool-cases (is_retry request)) [
      | inl again ↦ cc (rw again at h)
      | inr first_time ↦
          served-le requests (handle R s v request w) (rw first_time at h)
            (handle-le v request w first_time bound)
    ]

-- Whatever users create, delete and cancel, in any order, a user who has no more active jobs than
-- some number that is at least `max_jobs_per_user` has no more afterwards; retries are left out.
pub handle_each-active_count :
    (R : Redis JobMeta) (s : Settings) (requests : List (String × Request)) (w : World R)
    (u : String) (n : ℕ)
    → any (λ x. is_retry x.1) requests ≡ false
    → s.max_jobs_per_user ≤ n
    → active_count u w.table ≤ n
    → active_count u (handle_each R s requests w).table ≤ n
handle_each-active_count R s requests w u n h within bound = omega (
  arith,
  active_count-count u w.table,
  active_count-count u (handle_each R s requests w).table,
  served-le R s u n within requests w h (omega (arith, active_count-count u w.table, bound)),
)
