-- ===== src/AgentLoop/Stream/Ended.antt =====
-- The streamed response of a turn reports the message that it returns, and no other.
use attention.Prelude.{
  String, refl, ap, ◌∙◌, Bool, true, false, List, [], ◌∷◌, ◌++◌, Option, none, some, if◌then◌else◌,
}
use attention.Ai.Types.{Message}
use attention.Message.{AgentMessage, ai}
use attention.Session.Types.{Result, ok, err, diverges, panics, Error}
use attention.Session.Storage.{Action, pure, lift, ◌>>=◌, ◌>>◌}
use attention.Session.Storage.After.{After, bind-After, always-After}
use attention.AgentLoop.Types.{message_start, message_update, message_end, Surroundings}
use attention.AgentLoop.Config.{
  Config, LoopState, Request, Response, StreamItem, iter_failed, no_event, started_event,
  block_event, done_event, other_event, report,
}
use attention.AgentLoop.Config.Books.{
  Books, KeepsBooks, of_state-Books, bind-Books, ask_with-Books, call_back-Books, report-Books,
  report_end-Books,
}
use attention.AgentLoop.Stream.{
  put_message, deliver, recover, begin_message, update_message, follow, convert_by, transform,
  convert, ask_key, request_of, make_request, call_stream, stream_assistant_response,
}

-- The message of a result.
abbrev said : Result Message → List AgentMessage
said (ok m) = ai m ∷ []
said _ = []

convert_by-Books :
    {W : Type 0} (f : Option (List AgentMessage → W → Result (List Message) × W))
    (ms : List AgentMessage)
    → KeepsBooks (convert_by f ms)
unfolding convert_by
convert_by-Books none ms v n s b = always-After _ s (λ _. b)
convert_by-Books (some f) ms v n s b = call_back-Books (f ms) v n s b

module _ {W : Type 0} (around : Surroundings W) (v n : List AgentMessage) where
  -- The action returns a message, and reports it.
  abbrev Says : Action (LoopState W) Message → LoopState W → Type 0
  Says m s = After m s (λ a s'. Books (v ++ ai a ∷ []) n s')

  put_message-Books :
      (started : Bool) (m : Message) (s : LoopState W)
      → Books v n s
      → After (put_message started m) s (λ _ s'. Books v n s')
  unfolding put_message
  put_message-Books started m s b = always-After (put_message started m) s (λ _. b)

  pure-Says : (m : Message) (s : LoopState W) → Books (v ++ ai m ∷ []) n s → Says (pure m) s
  pure-Says m s (h, k) = record { leaves = λ a e. (h ∙ ap (λ r. v ++ said r) e, k) }

  deliver-Says :
      (started : Bool) (m : Message) (s : LoopState W)
      → Books v n s
      → Says (deliver around started m) s
  unfolding deliver
  deliver-Says started m s b =
      bind-After (put_message started m) _ s (put_message-Books started m s b) λ _ s1 b1.
        bind-After (if_new started) _ s1 (if_new-Books started s1 b1) λ _ s2 b2.
          bind-After (report around (message_end (ai m))) (λ _. pure m) s2
            (report_end-Books around (ai m) v n s2 b2) (λ _ s3 b3. pure-Says m s3 b3)
    where
      if_new : Bool → Action (LoopState W) (Unit {0})
      if_new started = if started then pure tt else report around (message_start (ai m))

      if_new-Books :
          (started : Bool) (s : LoopState W)
          → Books v n s
          → After (if_new started) s (λ _ s'. Books v n s')
      if_new-Books true s b = always-After (if_new true) s (λ _. b)
      if_new-Books false s b = report-Books around (message_start (ai m)) refl v n s b

  recover-Says :
      (started : Bool) (e : Error) (r : Result Message) (s : LoopState W)
      → Books v n s
      → Says (recover around started e r) s
  unfolding recover
  recover-Says started e (ok m) s b = deliver-Says started m s b
  recover-Says started e (err x) s b = record { leaves = λ a h. cc }
  recover-Says started e diverges s b = record { leaves = λ a h. cc }
  recover-Says started e panics s b = record { leaves = λ a h. cc }

  result-Says :
      (started : Bool) (r : Result Message) (s : LoopState W)
      → Books v n s
      → Says (lift r >>= deliver around started) s
  result-Says started r s b =
      bind-After (lift r) (deliver around started) s
        (always-After {Q = λ _ s'. Books v n s'} (lift r) s (λ _. b))
        (λ m s' b'. deliver-Says started m s' b')

  put_and_report-Books :
      (started : Bool) (m : Message) (report_it : Action (LoopState W) (Unit {0})) (s : LoopState W)
      → KeepsBooks report_it
      → Books v n s
      → After (put_message started m >> report_it) s (λ _ s'. Books v n s')
  put_and_report-Books started m report_it s q b =
      bind-After (put_message started m) (λ _. report_it) s (put_message-Books started m s b)
        (λ _ s' b'. q v n s' b')

  follow-Says :
      (response : Response) (items : List StreamItem) (started : Bool) (s : LoopState W)
      → Books v n s
      → Says (follow around response items started) s
  unfolding follow begin_message update_message
  follow-Says response [] started s b = result-Says started response.result s b
  follow-Says response (iter_failed e ∷ items) started s b =
      recover-Says started e response.result s b
  follow-Says response (started_event (some m) ∷ items) true s b =
      bind-After (put_message true m) (λ _. follow around response items true) s
        (put_message-Books true m s b) (λ _ s' b'. follow-Says response items true s' b')
  follow-Says response (started_event (some m) ∷ items) false s b =
      bind-After (begin_message around m) (λ _. follow around response items true) s
        (put_and_report-Books false m (report around (message_start (ai m))) s
          (report-Books around (message_start (ai m)) refl) b)
        (λ _ s' b'. follow-Says response items true s' b')
  follow-Says response (block_event (some m) ∷ items) true s b =
      bind-After (update_message around m) (λ _. follow around response items true) s
        (put_and_report-Books true m (report around (message_update (ai m))) s
          (report-Books around (message_update (ai m)) refl) b)
        (λ _ s' b'. follow-Says response items true s' b')
  follow-Says response (block_event (some m) ∷ items) false s b =
      follow-Says response items false s b
  follow-Says response (block_event none ∷ items) true s b = follow-Says response items true s b
  follow-Says response (block_event none ∷ items) false s b = follow-Says response items false s b
  follow-Says response (done_event (some m) ∷ items) started s b = deliver-Says started m s b
  follow-Says response (done_event none ∷ items) started s b = record { leaves = λ a h. cc }
  follow-Says response (started_event none ∷ items) true s b = follow-Says response items true s b
  follow-Says response (started_event none ∷ items) false s b = follow-Says response items false s b
  follow-Says response (no_event ∷ items) started s b = follow-Says response items started s b
  follow-Says response (other_event ∷ items) started s b = follow-Says response items started s b

  module _ (config : Config W) (stream : Request W → W → Response × W) where
    transform-Books : (ms : List AgentMessage) → KeepsBooks (transform around config stream ms)
    unfolding transform
    transform-Books ms = ask_with-Books config.transform_context ms ms

    convert-Books : (ms : List AgentMessage) → KeepsBooks (convert around config stream ms)
    unfolding convert
    convert-Books ms = convert_by-Books config.convert_to_llm ms

    ask_key-Books : (provider : String) → KeepsBooks (ask_key around config stream provider)
    unfolding ask_key
    ask_key-Books provider = ask_with-Books config.get_api_key provider ""

    make_request-Books : KeepsBooks (make_request around config stream)
    unfolding make_request
    make_request-Books =
        of_state-Books
          (λ s. transform around config stream s.context.messages >>= λ messages.
            convert around config stream messages >>= λ llm.
            ask_key around config stream s.model.provider >>= λ key.
            pure (request_of around config stream llm key s))
          λ s.
            bind-Books (transform around config stream s.context.messages)
              (λ messages. convert around config stream messages >>= λ llm.
                ask_key around config stream s.model.provider >>= λ key.
                pure (request_of around config stream llm key s))
              (transform-Books s.context.messages)
              λ messages.
                bind-Books (convert around config stream messages)
                  (λ llm. ask_key around config stream s.model.provider >>= λ key.
                    pure (request_of around config stream llm key s))
                  (convert-Books messages)
                  λ llm.
                    bind-Books (ask_key around config stream s.model.provider)
                      (λ key. pure (request_of around config stream llm key s))
                      (ask_key-Books s.model.provider)
                      λ key v n s' b.
                        always-After (pure (request_of around config stream llm key s)) s' (λ _. b)

    pub stream_assistant_response-After :
        (s : LoopState W)
        → Books v n s
        → After
            (stream_assistant_response around config stream)
            s
            (λ m s'. Books (v ++ ai m ∷ []) n s')
    unfolding stream_assistant_response call_stream
    stream_assistant_response-After s b =
        bind-After (make_request around config stream) _ s (make_request-Books v n s b)
          λ request s1 b1.
            bind-After (call_stream around config stream request)
              (λ response. follow around response response.items false) s1
              (call_back-Books (λ w. let (response, w') = stream request w in (ok response, w')) v n
                s1 b1)
              λ response s2 b2. follow-Says response response.items false s2 b2
