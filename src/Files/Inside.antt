-- ===== src/Files/Inside.antt =====
-- What the downloads of src/api/routers/files.py may serve, and to whom.
use extube.Prelude.{
  ℕ, ◌≡◌, String, Bool, true, false, Option, none, some, [], ◌∷◌, ◌++◌, arith, refl, ap, ◌∙◌, sym,
  eq_iff,
}
use mathlib.Core.Path.{subst}
use extube.JobStore
use extube.JobStore.{completed, Job, Table, status_eq}
use extube.Paths.{FilePath, is_relative_to, validate_job_path}
use extube.Http.{Reply, ok, http, or_raise, ◌>>=◌, ◌>>◌}
use extube.Jobs.{is_foreign, get_user_job}
use extube.Jobs.Steps.{owned_job}
use extube.Files.{
  Settings, Disk, FileResponse, completed_job, unless, path_text, resolve_stored, existing,
  join_below, result_dir_of, get_job_result, get_splat_file, get_potree_file, download_job_file,
}

is_relative_to_refl : (p : FilePath) → is_relative_to p p ≡ true
unfolding is_relative_to
is_relative_to_refl [] = refl
is_relative_to_refl (a ∷ p) = ground (arith, eq_iff a a, is_relative_to_refl p)

pub is_relative_to_trans :
    (p q r : FilePath)
    → is_relative_to p q ≡ true
    → is_relative_to q r ≡ true
    → is_relative_to p r ≡ true
unfolding is_relative_to
is_relative_to_trans p q [] h k = refl
is_relative_to_trans p [] (c ∷ r) h k = cc
is_relative_to_trans [] (b ∷ q) (c ∷ r) h k = cc
is_relative_to_trans (a ∷ p) (b ∷ q) (c ∷ r) h k =
    ground (arith, eq_iff a b, eq_iff b c, eq_iff a c, is_relative_to_trans p q r)

pub is_relative_to-append :
    (p q r : FilePath) → is_relative_to p r ≡ true → is_relative_to (p ++ q) r ≡ true
unfolding is_relative_to
is_relative_to-append p q [] h = refl
is_relative_to-append [] q (c ∷ r) h = cc
is_relative_to-append (a ∷ p) q (c ∷ r) h = ground (arith, is_relative_to-append p q r)

-- Inversion of a chain of replies that succeeds.
>>=-eq-ok :
    {A B : Type 0} (m : Reply A) (f : A → Reply B) (b : B)
    → (m >>= f) ≡ ok b
    → (a : A) × (m ≡ ok a) × (f a ≡ ok b)
>>=-eq-ok (ok a) f b h = (a, refl, h)
>>=-eq-ok (http code) f b h = cc

unless-eq-ok :
    (test : Bool) (code : ℕ) {B : Type 0} (r : Reply B) (b : B)
    → (unless test code >> r) ≡ ok b
    → (test ≡ true) × (r ≡ ok b)
unfolding unless
unless-eq-ok true code r b h = (refl, h)
unless-eq-ok false code r b h = cc

validated :
    (base dir : FilePath) (job_id : String)
    → validate_job_path base job_id ≡ some dir
    → is_relative_to dir base ≡ true
unfolding validate_job_path
validated base dir job_id h = ground arith

ok-injective : {A : Type 0} (a b : A) → ◌≡◌ {A = Reply A} (ok a) (ok b) → a ≡ b
ok-injective a b h = cc

tested_inside :
    (p base path : FilePath)
    → (unless (is_relative_to p base) 400 >> ok p) ≡ ok path
    → is_relative_to path base ≡ true
tested_inside p base path h =
    let (test, e) = unless-eq-ok (is_relative_to p base) 400 (ok p) path h in
    subst (λ q. is_relative_to q base ≡ true) (ok-injective p path e) test

module _ (s : Settings) (disk : Disk) where
  resolve_stored-inside :
      (stored : Option String) (path : FilePath)
      → resolve_stored s disk stored ≡ ok path
      → is_relative_to path s.output_base_dir ≡ true
  unfolding resolve_stored
  resolve_stored-inside stored path h =
      let (text, found, rest) = >>=-eq-ok (or_raise (path_text stored) 404) _ path h in
      tested_inside _ s.output_base_dir path rest

  join_below-inside :
      (dir : FilePath) (text : String) (path : FilePath)
      → join_below s disk dir text ≡ ok path
      → is_relative_to path dir ≡ true
  unfolding join_below
  join_below-inside dir text path h = tested_inside _ dir path h

  existing-eq : (p path : FilePath) → existing s disk p ≡ ok path → path ≡ p
  unfolding existing
  existing-eq p path h =
      sym (ok-injective p path (unless-eq-ok (disk.exists p) 404 (ok p) path h).1)

  -- What every endpoint tests of the job.
  pub record Entitles (job_id user_id : String) (t : Table) (job : Job) : Type 0 where
    pub found : JobStore.get job_id t ≡ some job
    pub own : is_foreign user_id job ≡ false
    pub done : status_eq job.status completed ≡ true

  completed_job-Entitles :
      (job_id user_id : String) (t : Table) (job : Job)
      → completed_job job_id user_id t ≡ ok job
      → Entitles job_id user_id t job
  unfolding completed_job
  completed_job-Entitles job_id user_id t job h =
      let (j, owned, rest) = >>=-eq-ok (get_user_job job_id user_id t) _ job h in
      let (done, same) = unless-eq-ok (status_eq j.status completed) 400 (ok j) job rest in
      let (found, own) = owned_job user_id job_id t j owned in
      subst (λ i. Entitles job_id user_id t i) (ok-injective j job same)
        (record { found = found; own = own; done = done })

  -- The four downloads of one file.
  pub data Download : Type 0 where
    result splat : Download
    potree file : String → Download

  unfoldable pub serve : Download → String → String → Table → Reply FileResponse
  serve result job_id user_id t = get_job_result s disk job_id user_id t
  serve splat job_id user_id t = get_splat_file s disk job_id user_id t
  serve (potree file_path) job_id user_id t = get_potree_file s disk job_id file_path user_id t
  serve (file file_path) job_id user_id t = download_job_file s disk job_id file_path user_id t

  -- The directory that a path of the request may not leave.
  abbrev pub Confines : Download → String → Job → FilePath → Type 0
  Confines result job_id job path = Unit
  Confines splat job_id job path = Unit
  Confines (potree file_path) job_id job path =
      (dir : FilePath) × (resolve_stored s disk job.potree_dir ≡ ok dir)
      × (is_relative_to path dir ≡ true)
  Confines (file file_path) job_id job path =
      (dir : FilePath) × (validate_job_path s.output_base_dir job_id ≡ some dir)
      × (is_relative_to path (dir ++ "reconstruction" ∷ []) ≡ true)

  pub record Serves (d : Download) (job_id user_id : String) (t : Table) (path : FilePath)
      : Type 0 where
    pub job : Job
    pub entitled : Entitles job_id user_id t job
    pub inside : is_relative_to path s.output_base_dir ≡ true
    pub confined : Confines d job_id job path

  -- The end of a chain: a path that exists is answered.
  answered :
      (p : FilePath) (k : FilePath → FileResponse) (response : FileResponse)
      → ((q : FilePath) → (k q).path ≡ q)
      → (existing s disk p >>= λ q. ok (k q)) ≡ ok response
      → response.path ≡ p
  answered p k response keeps h =
      let (q, there, made) = >>=-eq-ok (existing s disk p) _ response h in
      ap (λ (r : FileResponse). r.path) (sym (ok-injective (k q) response made))
      ∙ keeps q
      ∙ existing-eq p q there

  stored_inside :
      (stored : Option String) (k : FilePath → FileResponse) (response : FileResponse)
      → ((q : FilePath) → (k q).path ≡ q)
      → (resolve_stored s disk stored >>= λ p. existing s disk p >>= λ q. ok (k q)) ≡ ok response
      → is_relative_to response.path s.output_base_dir ≡ true
  stored_inside stored k response keeps h =
      let (p, resolved, rest) = >>=-eq-ok (resolve_stored s disk stored) _ response h in
      rw (answered p k response keeps rest) (resolve_stored-inside stored p resolved)

  pub result_dir-eq :
      (job_id : String) (dir : FilePath)
      → result_dir_of s disk job_id ≡ ok dir
      → (job_dir : FilePath) × (validate_job_path s.output_base_dir job_id ≡ some job_dir)
        × (dir ≡ job_dir ++ "reconstruction" ∷ [])
  unfolding result_dir_of
  result_dir-eq job_id dir h = of_option (validate_job_path s.output_base_dir job_id) refl h
    where
      of_option :
          (o : Option FilePath)
          → validate_job_path s.output_base_dir job_id ≡ o
          → (or_raise o 404 >>= λ d. ok (d ++ "reconstruction" ∷ [])) ≡ ok dir
          → (job_dir : FilePath) × (validate_job_path s.output_base_dir job_id ≡ some job_dir)
            × (dir ≡ job_dir ++ "reconstruction" ∷ [])
      of_option none e k = cc
      of_option (some d) e k = (d, e, sym (ok-injective _ dir k))

  module _ (job_id user_id : String) (t : Table) (response : FileResponse) where
    result-Serves :
        get_job_result s disk job_id user_id t ≡ ok response
        → Serves result job_id user_id t response.path
    unfolding get_job_result
    result-Serves h =
        let (job, got, rest) = >>=-eq-ok (completed_job job_id user_id t) _ response h in
        record {
          job = job;
          entitled = completed_job-Entitles job_id user_id t job got;
          inside = stored_inside job.ply_path _ response (λ q. refl) rest;
          confined = tt;
        }

    splat-Serves :
        get_splat_file s disk job_id user_id t ≡ ok response
        → Serves splat job_id user_id t response.path
    unfolding get_splat_file
    splat-Serves h =
        let (job, got, rest) = >>=-eq-ok (completed_job job_id user_id t) _ response h in
        record {
          job = job;
          entitled = completed_job-Entitles job_id user_id t job got;
          inside = stored_inside job.gs_splat_path _ response (λ q. refl) rest;
          confined = tt;
        }

    potree-Serves :
        (file_path : String)
        → get_potree_file s disk job_id file_path user_id t ≡ ok response
        → Serves (potree file_path) job_id user_id t response.path
    unfolding get_potree_file
    potree-Serves file_path h =
        let (job, got, rest) = >>=-eq-ok (completed_job job_id user_id t) _ response h in
        let (dir, stored, rest') =
          >>=-eq-ok (resolve_stored s disk job.potree_dir) _ response rest in
        let (target, below, rest'') =
          >>=-eq-ok (join_below s disk dir file_path) _ response rest' in
        let within : is_relative_to response.path dir ≡ true =
          rw (answered target _ response (λ q. refl) rest'')
            (join_below-inside dir file_path target below) in
        record {
          job = job;
          entitled = completed_job-Entitles job_id user_id t job got;
          inside =
              is_relative_to_trans response.path dir s.output_base_dir within
                (resolve_stored-inside job.potree_dir dir stored);
          confined = (dir, stored, within);
        }

    file-Serves :
        (file_path : String)
        → download_job_file s disk job_id file_path user_id t ≡ ok response
        → Serves (file file_path) job_id user_id t response.path
    unfolding download_job_file
    file-Serves file_path h =
        let (job, got, rest) = >>=-eq-ok (completed_job job_id user_id t) _ response h in
        let (dir, made, rest') = >>=-eq-ok (result_dir_of s disk job_id) _ response rest in
        let (target, below, rest'') =
          >>=-eq-ok (join_below s disk dir file_path) _ response rest' in
        let (job_dir, valid, same) = result_dir-eq job_id dir made in
        let path : response.path ≡ target =
          ap (λ (r : FileResponse). r.path)
            (sym (
              ok-injective _ response
                (unless-eq-ok (disk.is_file target) 404 _ response rest'').1)) in
        let within : is_relative_to response.path (job_dir ++ "reconstruction" ∷ []) ≡ true =
          rw (path, ← same) (join_below-inside dir file_path target below) in
        record {
          job = job;
          entitled = completed_job-Entitles job_id user_id t job got;
          inside =
              is_relative_to_trans response.path (job_dir ++ "reconstruction" ∷ [])
                s.output_base_dir within
                (is_relative_to-append job_dir ("reconstruction" ∷ []) s.output_base_dir
                  (validated s.output_base_dir job_dir job_id valid));
          confined = (job_dir, valid, within);
        }

  -- Whatever is served lies under the output directory, belongs to a completed job that the user may
  -- see, and, where the request names a path, does not leave the directory of the octree or the
  -- result directory of the job.
  pub serve-Serves :
      (d : Download) (job_id user_id : String) (t : Table) (response : FileResponse)
      → serve d job_id user_id t ≡ ok response
      → Serves d job_id user_id t response.path
  unfolding serve
  serve-Serves result job_id user_id t response h = result-Serves job_id user_id t response h
  serve-Serves splat job_id user_id t response h = splat-Serves job_id user_id t response h
  serve-Serves (potree file_path) job_id user_id t response h =
      potree-Serves job_id user_id t response file_path h
  serve-Serves (file file_path) job_id user_id t response h =
      file-Serves job_id user_id t response file_path h
