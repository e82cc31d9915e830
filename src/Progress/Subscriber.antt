-- ===== src/Progress/Subscriber.antt =====
-- The loop of the subscriber thread of src/api/ws.py, and what comes of it.
use extube.Prelude.{String, Option, List, [], ◌∷◌}
use extube.Progress.{Manager, Scheduled}
use extube.Progress.Channel.{relay}

-- What `get_message` returns: nothing, a message of another type, or one on a channel.
pub data Poll (A : Type 0) : Type 0 where
  nothing other_type : Poll A
  pmessage : String → Option A → Poll A

module _ {A : Type 0} where
  unfoldable pub on_poll : Poll A → Manager A → Scheduled A → Scheduled A
  unfolding relay
  on_poll nothing m scheduled = scheduled
  on_poll other_type m scheduled = scheduled
  on_poll (pmessage channel payload) m scheduled = relay channel payload m scheduled

  -- The polls until the thread is stopped, each with the manager as the server then has it, which
  -- the thread itself does not change.
  unfoldable pub subscriber_loop : List (Poll A × Manager A) → Scheduled A → Scheduled A
  unfolding on_poll
  subscriber_loop [] scheduled = scheduled
  subscriber_loop ((poll, m) ∷ polls) scheduled = subscriber_loop polls (on_poll poll m scheduled)
