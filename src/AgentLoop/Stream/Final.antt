-- ===== src/AgentLoop/Stream/Final.antt =====
-- The message that the streamed response of a turn returns.
use attention.Prelude.{◌≡◌, refl, ap, ◌∙◌, Bool, true, false, List, [], ◌∷◌, none, some}
use attention.Ai.Types.{Message}
use attention.Message.{ai}
use attention.Session.Types.{Result, ok, err, diverges, panics}
use attention.Session.Storage.{Action, pure, lift, continue, ◌>>=◌, ◌>>◌}
use attention.AgentLoop.Types.{Event, message_start, message_update, message_end, Surroundings}
use attention.AgentLoop.Config.{
  LoopState, Response, StreamItem, iter_failed, no_event, started_event, block_event, done_event,
  other_event, report,
}
use attention.AgentLoop.Tools.{emit}
use attention.AgentLoop.Stream.{
  put_message, deliver, recover, begin_message, update_message, follow, failure,
}

-- A description of the message without the events in between: that of the first event that ends the
-- message, or else, also where the iterator failed, the result of the response.
abbrev pub final_message : List StreamItem → Result Message → Result Message
final_message [] r = r
final_message (iter_failed e ∷ items) (err _) = err e
final_message (iter_failed e ∷ items) r = r
final_message (done_event (some m) ∷ items) r = ok m
final_message (done_event none ∷ items) r =
    err (failure "stream: ended without producing a message")
final_message (_ ∷ items) r = final_message items r

module _ {W : Type 0} (around : Surroundings W)
    (accepts : (e : Event) (w : W) → (around.sink e w).0 ≡ ok tt) where
  report-continue :
      {A : Type 0} (e : Event) (m : Action (LoopState W) A) (s : LoopState W)
      → ((report around e >> m) s).0 ≡ (m (report around e s).1).0
  unfolding emit
  report-continue e m s =
      ap (λ r. (continue r (λ _. m) (report around e s).1).0) (accepts e s.run.world)

  deliver-returns :
      (started : Bool) (m : Message) (s : LoopState W) → (deliver around started m s).0 ≡ ok m
  unfolding deliver put_message
  deliver-returns true m s = report-continue (message_end (ai m)) (pure m) _
  deliver-returns false m s =
      report-continue (message_start (ai m)) (report around (message_end (ai m)) >> pure m) _
      ∙ report-continue (message_end (ai m)) (pure m) _

  -- Where the sink accepts every event, the loop over the events of a response returns the message of
  -- the first event that ends it, whatever comes before and behind that event; an event that ends it
  -- without a message is an error. Where there is none, or the iterator fails before it, the result
  -- of the response is the message, and the iterator's error counts only where the result is an error.
  pub follow-final_message :
      (response : Response) (items : List StreamItem) (started : Bool) (s : LoopState W)
      → (follow around response items started s).0 ≡ final_message items response.result
  unfolding follow begin_message update_message put_message recover
  follow-final_message response [] started s = result response.result
    where
      result : (r : Result Message) → ((lift r >>= deliver around started) s).0 ≡ r
      result (ok m) = deliver-returns started m s
      result (err e) = refl
      result diverges = refl
      result panics = refl
  follow-final_message response (iter_failed e ∷ items) started s = result response.result
    where
      result :
          (r : Result Message)
          → (recover around started e r s).0 ≡ final_message (iter_failed e ∷ items) r
      result (ok m) = deliver-returns started m s
      result (err _) = refl
      result diverges = refl
      result panics = refl
  follow-final_message response (started_event (some m) ∷ items) true s =
      follow-final_message response items true _
  follow-final_message response (started_event (some m) ∷ items) false s =
      report-continue (message_start (ai m)) (follow around response items true) _
      ∙ follow-final_message response items true _
  follow-final_message response (block_event (some m) ∷ items) true s =
      report-continue (message_update (ai m)) (follow around response items true) _
      ∙ follow-final_message response items true _
  follow-final_message response (block_event (some m) ∷ items) false s =
      follow-final_message response items false s
  follow-final_message response (block_event none ∷ items) true s =
      follow-final_message response items true s
  follow-final_message response (block_event none ∷ items) false s =
      follow-final_message response items false s
  follow-final_message response (done_event (some m) ∷ items) started s =
      deliver-returns started m s
  follow-final_message response (done_event none ∷ items) started s = refl
  follow-final_message response (started_event none ∷ items) true s =
      follow-final_message response items true s
  follow-final_message response (started_event none ∷ items) false s =
      follow-final_message response items false s
  follow-final_message response (no_event ∷ items) started s =
      follow-final_message response items started s
  follow-final_message response (other_event ∷ items) started s =
      follow-final_message response items started s
