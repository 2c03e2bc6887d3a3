-- ===== src/AgentLoop/Stream.antt =====
-- internal/agentloop/loop.go: `streamAssistantResponse`, the request of a turn and the events of its
-- response. The provider's stream is a function of the request; `AssistantMessageEvent`, which a
-- message update hands on to the sink, is left out.
pub mod Ended
pub mod Shows
pub mod Final
use attention.Prelude.{
  String, Bool, true, false, List, [], ◌∷◌, ◌++◌, Option, none, some, ◌||◌, ◌==◌, if◌then◌else◌,
}
use attention.Ai.Types.{Message}
use attention.Message.{AgentMessage, ai}
use attention.Session.Types.{Result, ok, err, diverges, panics, Error, foreign}
use attention.Session.Storage.{Action, pure, lift, ◌>>=◌, ◌>>◌}
use attention.AgentLoop.Types.{
  message_start, message_update, message_end, Tool, LoopContext, Surroundings,
}
use attention.AgentLoop.Config.{
  Config, LoopState, Request, Response, StreamItem, iter_failed, no_event, started_event,
  block_event, done_event, other_event, call_back, ask_with, report,
}

abbrev pub failure : String → Error
failure text = record { code = foreign; text = text }

-- `reasoningFromThinkingLevel`.
unfoldable pub reasoning_from_thinking_level : String → String
reasoning_from_thinking_level level = if level == "" || level == "off" then "" else level

-- `agCtx.Messages[len(agCtx.Messages)-1] = msg`; the list has a message where the code does this.
unfoldable pub replace_last : AgentMessage → List AgentMessage → List AgentMessage
replace_last m [] = []
replace_last m (x ∷ []) = m ∷ []
replace_last m (x ∷ y ∷ ys) = x ∷ replace_last m (y ∷ ys)

-- The key of the callback replaces the configured one, unless it is empty.
unfoldable pub choose_key : (configured asked : String) → String
choose_key configured asked = if asked == "" then configured else asked

module _ {W : Type 0} where
  -- The message takes its place at the end of the context.
  unfoldable pub put_message : (started : Bool) → Message → Action (LoopState W) (Unit {0})
  unfolding replace_last
  put_message started m s = (
    ok tt,
    record s {
      context = record s.context {
        messages =
            if started
            then replace_last (ai m) s.context.messages
            else s.context.messages ++ ai m ∷ [];
      };
    },
  )

  unfoldable pub convert_by :
      Option (List AgentMessage → W → Result (List Message) × W)
      → List AgentMessage
      → Action (LoopState W) (List Message)
  convert_by none messages = lift (err (failure "agent loop missing convert to llm"))
  convert_by (some f) messages = call_back (f messages)

  module _ (around : Surroundings W) where
    -- The message is complete: it is put in its place, and reported.
    unfoldable pub deliver : (started : Bool) → Message → Action (LoopState W) Message
    unfolding put_message
    deliver started m = do
      put_message started m
      (if started then pure tt else report around (message_start (ai m)))
      report around (message_end (ai m))
      pure m

    -- The iterator failed: the result is the message, if there is one.
    unfoldable pub recover :
        (started : Bool) → Error → Result Message → Action (LoopState W) Message
    unfolding deliver
    recover started e (ok m) = deliver started m
    recover started e (err _) = lift (err e)
    recover started e diverges = lift diverges
    recover started e panics = lift panics

    unfoldable pub begin_message : Message → Action (LoopState W) (Unit {0})
    unfolding put_message
    begin_message m = put_message false m >> report around (message_start (ai m))

    unfoldable pub update_message : Message → Action (LoopState W) (Unit {0})
    unfolding put_message
    update_message m = put_message true m >> report around (message_update (ai m))

    -- The loop over the events, and what follows it.
    unfoldable pub follow :
        Response → List StreamItem → (started : Bool) → Action (LoopState W) Message
    unfolding recover begin_message update_message deliver put_message
    follow response [] started = lift response.result >>= deliver started
    follow response (iter_failed failed ∷ items) started = recover started failed response.result
    follow response (started_event (some m) ∷ items) true =
        put_message true m >> follow response items true
    follow response (started_event (some m) ∷ items) false =
        begin_message m >> follow response items true
    follow response (block_event (some m) ∷ items) true =
        update_message m >> follow response items true
    follow response (done_event (some m) ∷ items) started = deliver started m
    follow response (done_event none ∷ items) started =
        lift (err (failure "stream: ended without producing a message"))
    follow response (started_event none ∷ items) started = follow response items started
    follow response (block_event m ∷ items) started = follow response items started
    follow response (no_event ∷ items) started = follow response items started
    follow response (other_event ∷ items) started = follow response items started

    module _ (config : Config W) (stream : Request W → W → Response × W) where
      unfoldable pub transform : List AgentMessage → Action (LoopState W) (List AgentMessage)
      transform messages = ask_with config.transform_context messages messages

      unfoldable pub convert : List AgentMessage → Action (LoopState W) (List Message)
      unfolding convert_by
      convert messages = convert_by config.convert_to_llm messages

      unfoldable pub ask_key : (provider : String) → Action (LoopState W) String
      ask_key provider = ask_with config.get_api_key provider ""

      -- The request is made of the context and the model that the turn finds.
      unfoldable pub request_of : List Message → String → LoopState W → Request W
      unfolding reasoning_from_thinking_level choose_key
      request_of messages key s = record {
        model = s.model;
        system_prompt = s.context.system_prompt;
        messages = messages;
        tools = s.context.tools;
        api_key = choose_key config.api_key key;
        reasoning = reasoning_from_thinking_level s.thinking_level;
        settings = config.settings;
      }

      -- The messages for the provider, and the key.
      unfoldable pub make_request : Action (LoopState W) (Request W)
      unfolding transform convert ask_key request_of
      make_request s =
          (do
            messages ← transform s.context.messages
            llm_messages ← convert messages
            key ← ask_key s.model.provider
            pure (request_of llm_messages key s))
            s

      unfoldable pub call_stream : Request W → Action (LoopState W) Response
      call_stream request =
          call_back (λ w. let (response, w') = stream request w in (ok response, w'))

      unfoldable pub stream_assistant_response : Action (LoopState W) Message
      unfolding make_request call_stream follow
      stream_assistant_response = make_request >>= λ request.
          call_stream request >>= λ response. follow response response.items false
