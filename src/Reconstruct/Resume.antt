-- ===== src/Reconstruct/Resume.antt =====
-- The steps of `reconstruct` (src/reconstruction/reconstruction.py) that a checkpoint saves.
use extube.Prelude.{
  ℕ, zero, suc, ◌≤◌, String, true, false, ◌≡◌, List, [], ◌∷◌, ◌++◌, arith, refl, sym, ap, ◌∙◌,
  str_eq, any, take,
}
use extube.Reconstruct.{
  State, Machine, Exit, done, thrown, Io, after, ◌>>◌, require_dir, require_file, mkdir, notify,
}
use extube.Reconstruct.Commands.{
  extractor_command, matcher_command, mapper_command, run_command, feature_extractor,
  exhaustive_matcher, sparse_reconstructor,
}
use extube.Reconstruct.Workspace.{steps_of, save_checkpoint, checkpointed}
use extube.Reconstruct.Pipeline.{Options, below, sparse_phase}
use extube.Reconstruct.Hoare.{
  sparse_commands, finished, Extends, After, bind-After, Adds, bind-Adds, require-Rests,
  mkdir-Rests, notify-Rests, run_command-Adds,
}

abbrev pub sparse_steps : List String
sparse_steps = "feature_extraction" ∷ "exhaustive_matching" ∷ "sparse_reconstruction" ∷ []

-- The first `k` steps are saved, and their commands, and no others of the three, have returned, once
-- each and in order.
pub record Resumable (k : ℕ) (s : State) : Type 0 where
  pub in_range : k ≤ 3
  pub saved_steps : steps_of s.checkpoint ≡ take k sparse_steps
  pub returned_commands : finished s.commands ≡ take k sparse_commands

abbrev pub Consistent : State → Type 0
Consistent s = (k : ℕ) × Resumable k s

-- Within a run, whose list of steps is that of the checkpoint.
pub record At (k : ℕ) (s : State) : Type 0 where
  pub resumable : Resumable k s
  pub own_steps : s.steps_completed ≡ take k sparse_steps

pub Resumable-Extends : (k : ℕ) (s t : State) → Extends s t → Resumable k s → Resumable k t
Resumable-Extends k s t e r = record {
  in_range = r.in_range;
  saved_steps = ap steps_of e.checkpoint_same ∙ r.saved_steps;
  returned_commands = e.finished_same ∙ r.returned_commands;
}

module _ (step : String) (completed : List String) (action : Io (Unit {0})) where
  skips :
      (k : ℕ) (s : State)
      → any (str_eq step) completed ≡ true
      → At k s
      → After (λ _. At k) Consistent (checkpointed completed step action s)
  unfolding checkpointed
  skips k s known a = rw known a

  does :
      (k : ℕ) (name : String) (s : State)
      → any (str_eq step) completed ≡ false
      → suc k ≤ 3
      → take (suc k) sparse_steps ≡ take k sparse_steps ++ step ∷ []
      → take (suc k) sparse_commands ≡ take k sparse_commands ++ name ∷ []
      → ((t : State) → Adds name t (action t))
      → At k s
      → After (λ _. At (suc k)) Consistent (checkpointed completed step action s)
  unfolding checkpointed save_checkpoint steps_of
  does k name s new range next_step next_command adds a = rw new (of_exit (action s) (adds s))
    where
      of_exit :
          (r : Exit (Unit {0}) × State)
          → Adds name s r
          → After (λ _. At (suc k)) Consistent (after r (λ _. save_checkpoint step))
      of_exit (done tt, t) (c, h, f) =
          let steps : t.steps_completed ++ step ∷ [] ≡ take (suc k) sparse_steps =
            ap (λ (l : List String). l ++ step ∷ []) (h ∙ a.own_steps) ∙ sym next_step in
          record {
            resumable = record {
              in_range = range;
              saved_steps = steps;
              returned_commands =
                  f
                  ∙ ap (λ (l : List String). l ++ name ∷ []) a.resumable.returned_commands
                  ∙ sym next_command;
            };
            own_steps = steps;
          }
      of_exit (thrown e, t) (c, f) = (
        k,
        record {
          in_range = a.resumable.in_range;
          saved_steps = ap steps_of c ∙ a.resumable.saved_steps;
          returned_commands = f ∙ a.resumable.returned_commands;
        },
      )

-- The steps that are saved once the first, the first two or all three have been passed, where `k`
-- were saved before.
abbrev past_one : ℕ → ℕ
past_one zero = 1
past_one (suc k) = suc k

abbrev past_two : ℕ → ℕ
past_two zero = 2
past_two (suc k) = suc (past_one k)

abbrev past_three : ℕ → ℕ
past_three zero = 3
past_three (suc k) = suc (past_two k)

past_three-eq : (k : ℕ) → k ≤ 3 → past_three k ≡ 3
past_three-eq zero h = refl
past_three-eq (suc zero) h = refl
past_three-eq (suc (suc zero)) h = refl
past_three-eq (suc (suc (suc k))) h = omega arith

module _ (machine : Machine) (o : Options) where
  abbrev database : String
  database = below machine o "database.db"

  abbrev extracts : Io (Unit {0})
  extracts =
      notify "feature_matching" 0 "특징점 추출 시작"
      >> feature_extractor machine o.image_dir database o.camera_model o.retry_config

  abbrev matches : Io (Unit {0})
  matches =
      notify "feature_matching" 50 "특징점 매칭 중" >> exhaustive_matcher machine database o.retry_config

  abbrev maps : Io (Unit {0})
  maps =
      notify "reconstruction" 0 "Sparse 복원 시작"
      >> sparse_reconstructor machine database o.image_dir (below machine o "sparse") o.retry_config

  extraction-Adds : (t : State) → Adds "feature_extractor" t (extracts t)
  unfolding feature_extractor require_dir
  extraction-Adds =
      let command = extractor_command o.image_dir database o.camera_model in
      bind-Adds "feature_extractor" (notify "feature_matching" 0 "특징점 추출 시작") _ (notify-Rests _ _ _)
        (bind-Adds "feature_extractor" (require_dir o.image_dir)
          (run_command machine o.retry_config command) (require-Rests _ _)
          (run_command-Adds machine o.retry_config command refl))

  matching-Adds : (t : State) → Adds "exhaustive_matcher" t (matches t)
  unfolding exhaustive_matcher require_file
  matching-Adds =
      let command = matcher_command database in
      bind-Adds "exhaustive_matcher" (notify "feature_matching" 50 "특징점 매칭 중") _
        (notify-Rests _ _ _)
        (bind-Adds "exhaustive_matcher" (require_file database)
          (run_command machine o.retry_config command) (require-Rests _ _)
          (run_command-Adds machine o.retry_config command refl))

  mapping-Adds : (t : State) → Adds "mapper" t (maps t)
  unfolding sparse_reconstructor require_file require_dir mkdir
  mapping-Adds =
      let sparse = below machine o "sparse" in
      let command = mapper_command database o.image_dir sparse in
      bind-Adds "mapper" (notify "reconstruction" 0 "Sparse 복원 시작") _ (notify-Rests _ _ _) (
        bind-Adds "mapper" (require_file database) _ (require-Rests _ _) (
          bind-Adds "mapper" (require_dir o.image_dir) _ (require-Rests _ _) (
            bind-Adds "mapper" (mkdir sparse) (run_command machine o.retry_config command)
              (mkdir-Rests _) (run_command-Adds machine o.retry_config command refl))))

  extraction-At :
      (k : ℕ) (s : State)
      → At k s
      → After
          (λ _. At (past_one k))
          Consistent
          (checkpointed (take k sparse_steps) "feature_extraction" extracts s)
  extraction-At zero s a =
      does "feature_extraction" [] extracts 0 "feature_extractor" s refl (omega arith) refl refl
        extraction-Adds a
  extraction-At (suc k) s a = skips "feature_extraction" _ extracts (suc k) s refl a

  matching-At :
      (k : ℕ) (s : State)
      → At (past_one k) s
      → After
          (λ _. At (past_two k))
          Consistent
          (checkpointed (take k sparse_steps) "exhaustive_matching" matches s)
  matching-At zero s a =
      does "exhaustive_matching" [] matches 1 "exhaustive_matcher" s refl (omega arith) refl refl
        matching-Adds a
  matching-At (suc zero) s a =
      does "exhaustive_matching" (take 1 sparse_steps) matches 1 "exhaustive_matcher" s refl
        (omega arith) refl refl matching-Adds a
  matching-At (suc (suc k)) s a = skips "exhaustive_matching" _ matches (suc (suc k)) s refl a

  mapping-At :
      (k : ℕ) (s : State)
      → At (past_two k) s
      → After
          (λ _. At (past_three k))
          Consistent
          (checkpointed (take k sparse_steps) "sparse_reconstruction" maps s)
  mapping-At zero s a =
      does "sparse_reconstruction" [] maps 2 "mapper" s refl (omega arith) refl refl mapping-Adds a
  mapping-At (suc zero) s a =
      does "sparse_reconstruction" (take 1 sparse_steps) maps 2 "mapper" s refl (omega arith) refl
        refl mapping-Adds a
  mapping-At (suc (suc zero)) s a =
      does "sparse_reconstruction" (take 2 sparse_steps) maps 2 "mapper" s refl (omega arith) refl
        refl mapping-Adds a
  mapping-At (suc (suc (suc k))) s a =
      skips "sparse_reconstruction" _ maps (suc (suc (suc k))) s refl a

  notified-At :
      (k : ℕ) (step : String) (percent : ℕ) (message : String) (s : State)
      → At k s
      → At k (notify step percent message s).1
  unfolding notify
  notified-At k step percent message s a = record {
    resumable = record {
      in_range = a.resumable.in_range;
      saved_steps = a.resumable.saved_steps;
      returned_commands = a.resumable.returned_commands;
    };
    own_steps = a.own_steps;
  }

  -- From the steps that are saved, the phase goes on to all three, or fails in a consistent state.
  pub sparse_phase-At :
      (k : ℕ) (s : State)
      → At k s
      → After (λ _. At 3) Consistent (sparse_phase machine o (take k sparse_steps) s)
  unfolding sparse_phase notify
  sparse_phase-At k s a = rw (sym (past_three-eq k a.resumable.in_range)) (
      bind-After (λ _. At (past_one k)) (λ _. At (past_three k)) Consistent
        (checkpointed (take k sparse_steps) "feature_extraction" extracts s) _ (extraction-At k s a)
        λ _ t b.
          bind-After (λ _. At (past_two k)) (λ _. At (past_three k)) Consistent
            (checkpointed (take k sparse_steps) "exhaustive_matching" matches t) _
            (matching-At k t b) λ _ u c. mapping-At k _ (notified-At (past_two k) _ _ _ u c))
