-- ===== src/Tasks/Worker/Scene.antt =====
-- What a completed job of `run_pipeline` (src/api/tasks.py) has to show for it.
use extube.Prelude.{
  ◌&&◌, ℕ, ◌+◌, ◌-◌, ◌≤◌, ◌≡◌, String, false, Option, none, some, List, [], ◌∷◌, ◌++◌, ltb, arith,
  refl, ap, sym, ◌∙◌, Bool-cases, inl, inr,
}
use extube.JobStore
use extube.JobStore.{
  JobStatus, processing, completed, Progress, Params, RunResult, Job, Field, set_fields,
}
use extube.JobStore.Laws.{updates, move}
use extube.Redis.{Redis}
use extube.QueueManager.{JobMeta, activate}
use extube.Config
use extube.Paths.{FilePath, validate_job_path}
use extube.Downloader.Download as Fetch
use extube.Downloader.Download.{download_video}
use extube.Extractor as Frames
use extube.Reconstruct.{Failure, State, Exit, done, thrown}
use extube.Reconstruct.Pipeline as Rebuild
use extube.Reconstruct.Pipeline.{reconstruct}
use extube.Reconstruct.Hoare.{After}
use extube.Pipeline.{Pipeline, Tools, extract}
use extube.Pipeline.Rebuilt.{Any, Rebuilt, reconstruct-Rebuilt}
use extube.Tasks.Errors.{Exception, is_retryable_error}
use extube.Tasks.Ending.{error_of, run_stages-error}
use extube.Tasks.Verdict.{verdict, run_pipeline-verdict}
use extube.Tasks.{
  Event, finished, Outcome, returned, raised, DownloadResult, ExtractionResult,
  ReconstructionResult, Stages, Settings, World, result_of, updates_of, save, publish, Run,
  after_reconstruct, after_extract, after_download, run_stages, settle, run_pipeline,
}
use extube.Tasks.Ends.{updates_allowed, status_of, job_of, job_of-save}
use extube.Tasks.Worker.{
  text_of_path, pipeline_of_job, scene_of, job_options, after_scene, after_frames, after_video,
  fresh, stages,
}

abbrev pub stored_result : Option Job → Option RunResult
stored_result none = none
stored_result (some job) = job.result

kept_result :
    (r : RunResult) (c : ReconstructionResult) (job : Job)
    → (set_fields (updates_of r c) job).result ≡ some r
unfolding updates_of set_fields
kept_result r c job = ground arith

module _ (R : Redis JobMeta) (job_id : String) (st : Stages) where
  -- How a run of the stages ends that raises nothing.
  record Finish (run : Run R) : Type 0 where
    download : DownloadResult
    extraction : ExtractionResult
    scene : ReconstructionResult
    before : World R
    extracted : st.extract_and_filter ≡ returned extraction
    rebuilt : st.reconstruct ≡ returned scene
    enough : ltb (extraction.total_extracted - extraction.total_filtered) 2 ≡ false
    world :
        run.0
        ≡ publish R job_id
            (finished (result_of download extraction scene))
            (save R job_id (updates_of (result_of download extraction scene) scene) before)

  after_reconstruct-Finish :
      (d : DownloadResult) (e : ExtractionResult) (w : World R) (o : Outcome ReconstructionResult)
      → st.extract_and_filter ≡ returned e
      → ltb (e.total_extracted - e.total_filtered) 2 ≡ false
      → st.reconstruct ≡ o
      → (after_reconstruct R job_id d e w o).1 ≡ none
      → Finish (after_reconstruct R job_id d e w o)
  unfolding after_reconstruct
  after_reconstruct-Finish d e w (raised x) frames enough here h = cc
  after_reconstruct-Finish d e w (returned r) frames enough here h = record {
    download = d;
    extraction = e;
    scene = r;
    before = w;
    extracted = frames;
    rebuilt = here;
    enough = enough;
    world = refl;
  }

  after_extract-Finish :
      (d : DownloadResult) (w : World R) (o : Outcome ExtractionResult)
      → st.extract_and_filter ≡ o
      → (after_extract R st job_id d w o).1 ≡ none
      → Finish (after_extract R st job_id d w o)
  unfolding after_extract
  after_extract-Finish d w (raised x) here = λ h. cc
  after_extract-Finish d w (returned e) here =
      elim (Bool-cases (ltb (e.total_extracted - e.total_filtered) 2)) [
        | inl few ↦ rw few (λ h. cc)
        | inr enough ↦ rw enough (after_reconstruct-Finish d e _ st.reconstruct here enough refl)
      ]

  after_download-Finish :
      (w : World R) (o : Outcome DownloadResult)
      → (after_download R st job_id w o).1 ≡ none
      → Finish (after_download R st job_id w o)
  unfolding after_download
  after_download-Finish w (raised x) h = cc
  after_download-Finish w (returned d) h = after_extract-Finish d _ st.extract_and_filter refl h

  run_stages-Finish :
      (w : World R) → (run_stages R st job_id w).1 ≡ none → Finish (run_stages R st job_id w)
  unfolding run_stages
  run_stages-Finish w h = after_download-Finish _ st.download_video h

some-injective : (a b : JobStatus) → ◌≡◌ {A = Option JobStatus} (some a) (some b) → a ≡ b
some-injective a b h = cc

returned-injective :
    (a b : ReconstructionResult)
    → ◌≡◌ {A = Outcome ReconstructionResult} (returned a) (returned b)
    → a ≡ b
returned-injective a b h = cc

module _ (tools : Tools) (str : Failure → String) (callbacks : State → List Progress)
    (config : Config.Settings) (base : FilePath) (url : String) (p : Pipeline) where
  -- A scene that the stages return has a point.
  abbrev HasPoints : Stages × State → Type 0
  HasPoints (st, t) = (r : ReconstructionResult) → st.reconstruct ≡ returned r → 1 ≤ r.num_points3d

  after_scene-HasPoints :
      (d : DownloadResult) (x : ExtractionResult) (n : ℕ)
      (o : Exit Rebuild.ReconstructionResult × State)
      → After (Rebuilt tools.machine (job_options tools str callbacks config base url p) n) Any o
      → HasPoints (after_scene tools str callbacks config base url p d x o)
  unfolding after_scene scene_of
  after_scene-HasPoints d x n (done r, t) b c e =
      omega (arith, ap (λ q. q.num_points3d) (returned-injective _ c e), b.some_points)
  after_scene-HasPoints d x n (thrown f, t) b c e = cc

  after_frames-HasPoints :
      (d : DownloadResult) (o : Exit Frames.ExtractionResult × State)
      → HasPoints (after_frames tools str callbacks config base url p d o)
  unfolding after_frames
  after_frames-HasPoints d (thrown f, t) = λ c e. cc
  after_frames-HasPoints d (done x, t) =
      elim (Bool-cases (ltb (x.total_extracted - x.total_filtered) 2)) [
        | inl few ↦ rw few (λ c e. cc)
        | inr enough ↦ rw enough (
            after_scene-HasPoints d _ _ _ (
              reconstruct-Rebuilt tools.machine (job_options tools str callbacks config base url p)
                (fresh tools str callbacks config base url p t)))
      ]

  after_video-HasPoints :
      (o : Exit Fetch.DownloadResult × State)
      → HasPoints (after_video tools str callbacks config base url p o)
  unfolding after_video
  after_video-HasPoints (thrown f, t) c e = cc
  after_video-HasPoints (done d, t) c e =
      after_frames-HasPoints _ (extract tools p d.video_path _ t) c e

  pub stages-HasPoints : (s : State) → HasPoints (stages tools str callbacks config base url p s)
  unfolding stages
  stages-HasPoints s = after_video-HasPoints (download_video tools.yt_dlp url _ p.max_height s)

module _ (R : Redis JobMeta) (s : Settings) (job_id : String) (now : ℕ) where
  -- The result of the job, which its clients were told last.
  pub record Delivered (w : World R) : Type 0 where
    pub result : RunResult
    pub earlier : List (String × Event)
    pub stored : stored_result (job_of R job_id w) ≡ some result
    pub told : w.published ≡ earlier ++ (job_id, finished result) ∷ []
    pub two_frames : result.filtered_frames + 2 ≤ result.total_frames
    pub some_points : 1 ≤ result.num_points3d

  elsewhere :
      (w w' : World R)
      → w'.table ≡ w.table
      → w'.published ≡ w.published
      → Delivered w
      → Delivered w'
  elsewhere w w' table published d = record {
    result = d.result;
    earlier = d.earlier;
    stored = ap (λ t. stored_result (JobStore.get job_id t)) table ∙ d.stored;
    told = published ∙ d.told;
    two_frames = d.two_frames;
    some_points = d.some_points;
  }

  saved_result :
      (r : RunResult) (c : ReconstructionResult) (o : Option Job)
      → status_of (move (updates job_id (updates_of r c)) o) ≡ some completed
      → stored_result (move (updates job_id (updates_of r c)) o) ≡ some r
  saved_result r c none h = cc
  saved_result r c (some job) h = rw (updates_allowed R job_id r c) (kept_result r c job)

  left_frames : (n m : ℕ) → ltb (n - m) 2 ≡ false → m + 2 ≤ n
  left_frames n m h = ground arith

  Finish-Delivered :
      (st : Stages) (run : Run R)
      → ((c : ReconstructionResult) → st.reconstruct ≡ returned c → 1 ≤ c.num_points3d)
      → Finish R job_id st run
      → status_of (job_of R job_id run.0) ≡ some completed
      → Delivered run.0
  unfolding publish save result_of
  Finish-Delivered st run points f h =
      let r = result_of f.download f.extraction f.scene in
      let there =
        ap (job_of R job_id) f.world ∙ job_of-save R job_id (updates_of r f.scene) f.before in
      record {
        result = r;
        earlier = f.before.published;
        stored =
            ap stored_result there
            ∙ saved_result r f.scene (job_of R job_id f.before) (sym (ap status_of there) ∙ h);
        told = ap (λ w. w.published) f.world;
        two_frames = left_frames f.extraction.total_extracted f.extraction.total_filtered f.enough;
        some_points = points f.scene f.rebuilt;
      }

  is_completed : (v : Option Exception) (n : ℕ) → verdict s v n ≡ completed → v ≡ none
  is_completed none n = λ h. refl
  is_completed (some e) n = elim (Bool-cases (is_retryable_error e && ltb n s.max_retries)) [
    | inl again ↦ rw again (λ h. cc)
    | inr over ↦ rw over (λ h. cc)
  ]

  settle-same : (run : Run R) → run.1 ≡ none → settle R s job_id now run ≡ run.0
  unfolding settle
  settle-same (w, none) h = refl
  settle-same (w, some e) h = cc

  -- Where the job exists, its directory passes `_validate_job_path` and the stages are the real
  -- ones, a run of `run_pipeline` after which the job is `completed` leaves it with a result that
  -- tells of at least two frames that are not blurry and of a scene with a point, and publishes
  -- this result as its last message.
  pub run_pipeline-Delivered :
      (tools : Tools) (str : Failure → String) (callbacks : State → List Progress)
      (config : Config.Settings) (base dir : FilePath) (url : String) (params : Params)
      (disk : State) (w : World R) (job : Job)
      → validate_job_path base job_id ≡ some dir
      → JobStore.get job_id w.table ≡ some job
      → let p = pipeline_of_job (text_of_path dir) params in
        let w' =
          run_pipeline R s base
            (stages tools str callbacks config base url p disk).0
            job_id
            now
            w in
        status_of (job_of R job_id w') ≡ some completed → Delivered w'
  unfolding run_pipeline
  run_pipeline-Delivered tools str callbacks config base dir url params disk w job valid found h =
      let p = pipeline_of_job (text_of_path dir) params in
      let st = (stages tools str callbacks config base url p disk).0 in
      let w₁ =
        save R job_id (Field.status processing ∷ [])
          (record w { redis = activate R job_id w.redis }) in
      let run = run_stages R st job_id w₁ in
      let ends = run_pipeline-verdict R s job_id now base dir st w job valid found in
      let silent =
        run_stages-error R job_id st w₁
        ∙ is_completed (error_of st) _ (some-injective _ _ (sym ends.0 ∙ h)) in
      let w' = run_pipeline R s base st job_id now w in
      let table : w'.table ≡ run.0.table =
        rw (valid, run_pipeline) (ap (λ v. v.table) (settle-same run silent)) in
      let published : w'.published ≡ run.0.published =
        rw (valid, run_pipeline) (ap (λ v. v.published) (settle-same run silent)) in
      elsewhere run.0 w' table published (
        Finish-Delivered st run (stages-HasPoints tools str callbacks config base url p disk)
          (run_stages-Finish R job_id st w₁ silent)
          (ap (λ t. status_of (JobStore.get job_id t)) (sym table) ∙ h))
