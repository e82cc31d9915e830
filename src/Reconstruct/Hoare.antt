-- ===== src/Reconstruct/Hoare.antt =====
-- How the operations on a workspace (src/reconstruction/reconstruction.py) change what a later run
-- depends on: the checkpoint, the steps of the run, and the sparse commands that returned.
use mathlib.Core.List.{append-nil, append_assoc}
use extube.Prelude.{
  ℕ, String, Bool, true, false, ◌≡◌, Option, List, [], ◌∷◌, ◌++◌, arith, refl, sym, ap, ◌∙◌, str_eq,
  Option-cases, inl, inr, any, if◌then◌else◌,
}
use extube.Colmap.{ColmapRetryConfig, Ending, Retry, returned, raised, run_colmap}
use extube.Gaussian.{or_else}
use extube.Reconstruct.{
  Failure, Command, Files, State, Machine, Exit, done, thrown, Io, after, ◌>>=◌, ◌>>◌, require,
  change_files, mkdir, notify,
}
use extube.Reconstruct.Commands.{run_command, exit_of, no_retries, colmap_timeout}

abbrev pub sparse_commands : List String
sparse_commands = "feature_extractor" ∷ "exhaustive_matcher" ∷ "mapper" ∷ []

abbrev pub is_sparse : Command → Bool
is_sparse command = any (str_eq command.name) sparse_commands

abbrev pub onto_finished : Command → Ending → List String → List String
onto_finished command returned rest = if is_sparse command then command.name ∷ rest else rest
onto_finished command (raised message) rest = rest

-- The names of the sparse commands that returned, in order.
abbrev pub finished : List (Command × Ending) → List String
finished [] = []
finished ((command, ending) ∷ log) = onto_finished command ending (finished log)

onto-append :
    (command : Command) (ending : Ending) (xs ys : List String)
    → onto_finished command ending (xs ++ ys) ≡ onto_finished command ending xs ++ ys
onto-append command returned xs ys = ground arith
onto-append command (raised message) xs ys = refl

finished-append :
    (log more : List (Command × Ending)) → finished (log ++ more) ≡ finished log ++ finished more
finished-append [] more = refl
finished-append ((command, ending) ∷ log) more =
    ap (onto_finished command ending) (finished-append log more)
    ∙ onto-append command ending (finished log) (finished more)

-- From one state to another: nothing that matters changes but the steps of the run, which grow.
pub record Extends (s t : State) : Type 0 where
  pub checkpoint_same : t.checkpoint ≡ s.checkpoint
  pub finished_same : finished t.commands ≡ finished s.commands
  pub more : List String
  pub steps_more : t.steps_completed ≡ s.steps_completed ++ more

pub extends :
    (s t : State)
    → t.checkpoint ≡ s.checkpoint
    → finished t.commands ≡ finished s.commands
    → t.steps_completed ≡ s.steps_completed
    → Extends s t
extends s t c f h = record {
  checkpoint_same = c;
  finished_same = f;
  more = [];
  steps_more = h ∙ sym (append-nil s.steps_completed);
}

pub Extends-refl : (s : State) → Extends s s
Extends-refl s = extends s s refl refl refl

pub Extends-trans : (s t u : State) → Extends s t → Extends t u → Extends s u
Extends-trans s t u h k = record {
  checkpoint_same = k.checkpoint_same ∙ h.checkpoint_same;
  finished_same = k.finished_same ∙ h.finished_same;
  more = h.more ++ k.more;
  steps_more =
      k.steps_more
      ∙ ap (λ (l : List String). l ++ k.more) h.steps_more
      ∙ append_assoc s.steps_completed h.more k.more;
}

abbrev pub Grows : {A : Type 0} → Io A → Type 0
Grows m = (s : State) → Extends s (m s).1

-- The predicate `P` holds after a return, and `Q` after an exception.
abbrev pub After : {A : Type 0} → (A → State → Type 0) → (State → Type 0) → Exit A × State → Type 0
After P Q (done a, s) = P a s
After P Q (thrown e, s) = Q s

pub bind-After :
    {A B : Type 0} (P : A → State → Type 0) (R : B → State → Type 0) (Q : State → Type 0)
    (r : Exit A × State) (f : A → Io B)
    → After P Q r
    → ((a : A) (s : State) → P a s → After R Q (f a s))
    → After R Q (after r f)
bind-After P R Q (done a, s) f h k = k a s h
bind-After P R Q (thrown e, s) f h k = h

-- The operations of `m` come first, and what follows keeps the predicate.
pub then-After :
    {A B : Type 0} (R : B → State → Type 0) (s u : State) (m : Io A) (f : A → Io B)
    → Grows m
    → Extends s u
    → ((a : A) (t : State) → Extends s t → After R (Extends s) (f a t))
    → After R (Extends s) (after (m u) f)
then-After R s u m f h e k = of_exit (m u) (Extends-trans s u (m u).1 e (h u))
  where
    of_exit : (r : Exit _ × State) → Extends s r.1 → After R (Extends s) (after r f)
    of_exit (done a, t) x = k a t x
    of_exit (thrown _, t) x = x

pub bind-Grows :
    {A B : Type 0} (m : Io A) (f : A → Io B) → Grows m → ((a : A) → Grows (f a)) → Grows (m >>= f)
bind-Grows m f h k s = of_exit (m s) (h s)
  where
    of_exit : (r : Exit _ × State) → Extends s r.1 → Extends s (after r f).1
    of_exit (done a, t) e = Extends-trans s t (f a t).1 e (k a t)
    of_exit (thrown _, t) e = e

-- Nothing that matters changes.
pub record Quiet (s t : State) : Type 0 where
  pub same_checkpoint : t.checkpoint ≡ s.checkpoint
  pub same_finished : finished t.commands ≡ finished s.commands
  pub same_steps : t.steps_completed ≡ s.steps_completed

abbrev pub Rests : {A : Type 0} → Io A → Type 0
Rests m = (s : State) → Quiet s (m s).1

pub Quiet-refl : (s : State) → Quiet s s
Quiet-refl s = record { same_checkpoint = refl; same_finished = refl; same_steps = refl }

pub Rests-Grows : {A : Type 0} (m : Io A) → Rests m → Grows m
Rests-Grows m h s = extends s (m s).1 (h s).same_checkpoint (h s).same_finished (h s).same_steps

pub require-Rests : (test : State → Bool) (e : Failure) → Rests (require test e)
unfolding require
require-Rests test e s = of_test (test s)
  where
    of_test :
        (b : Bool) → Quiet s (if◌then◌else◌ {A = Exit Unit × State} b (done tt, s) (thrown e, s)).1
    of_test true = Quiet-refl s
    of_test false = Quiet-refl s

pub change_files-Rests : (f : Files → Files) → Rests (change_files f)
unfolding change_files
change_files-Rests f s = record { same_checkpoint = refl; same_finished = refl; same_steps = refl }

pub mkdir-Rests : (dir : String) → Rests (mkdir dir)
unfolding mkdir change_files
mkdir-Rests dir s = elim (Option-cases (s.files.refuses dir)) [
  | inl e ↦
      rw (e, mkdir) (record { same_checkpoint = refl; same_finished = refl; same_steps = refl })
  | inr (type_name, e) ↦ rw (e, mkdir) (Quiet-refl s)
]

pub notify-Rests :
    (step : String) (percent : ℕ) (message : String) → Rests (notify step percent message)
unfolding notify
notify-Rests step percent message s = record {
  same_checkpoint = refl;
  same_finished = refl;
  same_steps = refl;
}

-- What one of the three sparse commands leaves: its name is added just when it returns.
abbrev pub Adds : String → State → Exit (Unit {0}) × State → Type 0
Adds name s =
    After
      (λ _ t.
        (t.checkpoint ≡ s.checkpoint)
        × (t.steps_completed ≡ s.steps_completed)
        × (finished t.commands ≡ finished s.commands ++ name ∷ []))
      (λ t. (t.checkpoint ≡ s.checkpoint) × (finished t.commands ≡ finished s.commands))

from_Quiet :
    (name : String) (s t : State) (r : Exit (Unit {0}) × State)
    → Quiet s t
    → Adds name t r
    → Adds name s r
from_Quiet name s t (done tt, u) q (c, h, f) = (
  c ∙ q.same_checkpoint,
  h ∙ q.same_steps,
  f ∙ ap (λ (l : List String). l ++ name ∷ []) q.same_finished,
)
from_Quiet name s t (thrown e, u) q (c, f) = (c ∙ q.same_checkpoint, f ∙ q.same_finished)

pub bind-Adds :
    (name : String) (m k : Io (Unit {0}))
    → Rests m
    → ((s : State) → Adds name s (k s))
    → (s : State) → Adds name s ((m >> k) s)
bind-Adds name m k h adds s = of_exit (m s) (h s)
  where
    of_exit : (r : Exit (Unit {0}) × State) → Quiet s r.1 → Adds name s (after r (λ _. k))
    of_exit (done tt, t) q = from_Quiet name s t (k t) q (adds t)
    of_exit (thrown e, t) q = (q.same_checkpoint, q.same_finished)

quiet_finished :
    (command : Command) (ending : Ending)
    → is_sparse command ≡ false
    → onto_finished command ending [] ≡ []
quiet_finished command returned other = rw other refl
quiet_finished command (raised message) other = refl

module _ (machine : Machine) (config : Option ColmapRetryConfig) (command : Command) where
  -- How the command ends.
  abbrev pub ending : Ending
  ending =
      (run_colmap (or_else config no_retries) command.name colmap_timeout
        (machine.process command)).1

  -- A command whose name is none of the three.
  pub run_command-Grows : is_sparse command ≡ false → Grows (run_command machine config command)
  unfolding run_command
  run_command-Grows other s =
      extends s _ refl
        (finished-append s.commands ((command, ending) ∷ [])
          ∙ ap (finished s.commands ++◌) (quiet_finished command ending other)
          ∙ append-nil (finished s.commands))
        refl

  pub run_command-Adds :
      is_sparse command ≡ true
      → (s : State) → Adds command.name s (run_command machine config command s)
  unfolding run_command exit_of
  run_command-Adds own s = of_ending ending _ _
    where
      of_ending :
          (e : Ending) (files : Files) (retries : List Retry)
          → Adds command.name s (
            exit_of e,
            record s {
              files = files;
              commands = s.commands ++ (command, e) ∷ [];
              retries = retries;
            },
          )
      of_ending returned files retries =
          (refl, refl, finished-append s.commands ((command, returned) ∷ []) ∙ rw own refl)
      of_ending (raised message) files retries = (
        refl,
        finished-append s.commands ((command, raised message) ∷ [])
            ∙ append-nil (finished s.commands),
      )
