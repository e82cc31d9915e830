-- ===== src/Progress/Channel.antt =====
-- The channel of a job: `_publish_progress` of src/api/tasks.py writes its name, and the subscriber
-- thread of src/api/ws.py reads the job id back and hands the message on.
use Prim.Native.String
use text.Mathlib.TextLemmas.{append_assoc, cons-append, nil-append}
use extube.Prelude.{
  false, ◌≡◌, String, true, Option, none, some, List, [], ◌∷◌, arith, refl, ap, ◌∙◌,
}
use extube.Prelude.Text.{concat}
use extube.Prelude.Split.{split_on, lacks, split_on-append}
use extube.Paths.{is_valid_job_id, is_hex, all_hex}
use extube.Progress.{Manager, Scheduled, broadcast_progress}

unfoldable pub progress_channel : String → String
unfolding concat
progress_channel job_id = concat ("job:" ∷ job_id ∷ ":progress" ∷ [])

middle_of_three : List String → Option String
middle_of_three (a ∷ b ∷ c ∷ []) = some b
middle_of_three _ = none

-- The job id of a channel of three parts.
unfoldable pub job_of_channel : String → Option String
unfolding split_on middle_of_three
job_of_channel channel = middle_of_three (split_on b':' channel)

-- One message of the subscriber's loop; `none` stands for data that is not JSON. The thread is a
-- `threading.Thread`, in which no event loop runs.
unfoldable pub relay : {A : Type 0} → String → Option A → Manager A → Scheduled A → Scheduled A
unfolding job_of_channel
relay channel none m scheduled = scheduled
relay channel (some payload) m scheduled = elim (job_of_channel channel) [
  | none ↦ scheduled
  | some job_id ↦ broadcast_progress false job_id payload m scheduled
]

hex_lacks : (s : String) → all_hex s ≡ true → lacks b':' s ≡ true
unfolding is_hex
hex_lacks String.[] h = refl
hex_lacks (String.◌∷◌ c s) h = ground (arith, hex_lacks s)

-- The subscriber reads back the job id of a channel, for every id that the service accepts.
pub job_of_channel-progress_channel :
    (job_id : String)
    → is_valid_job_id job_id ≡ true
    → job_of_channel (progress_channel job_id) ≡ some job_id
unfolding job_of_channel progress_channel is_valid_job_id split_on
job_of_channel-progress_channel job_id valid =
    ap (λ channel. middle_of_three (split_on b':' channel))
      (append_assoc "job" ":" (String.◌++◌ job_id ":progress") ∙ ap (String.◌++◌ "job") (colon _))
    ∙ ap middle_of_three (
        split_on-append ":" "job" (String.◌++◌ job_id ":progress") refl
        ∙ ap (λ parts. "job" ∷ parts)
            (split_on-append ":" job_id "progress" (hex_lacks job_id (ground arith))))
  where
    colon : (s : String) → String.◌++◌ ":" s ≡ String.◌∷◌ ":" s
    colon s = cons-append ":" "" s ∙ ap (String.◌∷◌ ":") (nil-append s)
