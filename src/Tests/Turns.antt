-- ===== src/Tests/Turns.antt =====
-- The theorems on runs at an agent that lists files, and then answers.
use attention.Prelude.{ℕ, zero, suc, ◌≡◌, refl, false, List, [], ◌∷◌, ◌++◌, map, some}
use attention.Value.{null}
use attention.Ai.Types.{
  is_failed, is_tool_call, is_assistant, Message, new_message, text_block, assistant, user,
}
use attention.Ai.Transform.{Model, tool_calls}
use attention.Message.{as_ai_message, AgentMessage, ai, snapshot}
use attention.Session.Types.{Result, ok}
use attention.AgentLoop.Types.{LoopContext}
use attention.AgentLoop.Tools.{
  Run, emit, prepare_tool_call, emit_end, emit_result, should_terminate, finalize, executed,
}
use attention.AgentLoop.Batch.{execute_tool_calls}
use attention.AgentLoop.Tools.Ended.{heard}
use attention.AgentLoop.Tools.Returns.{Returns}
use attention.AgentLoop.Config.{
  Config, Request, Response, started_event, block_event, done_event, no_event, LoopState,
}
use attention.AgentLoop.Stream.{follow, stream_assistant_response}
use attention.AgentLoop.Stream.Final.{final_message, follow-final_message}
use attention.AgentLoop.Stream.Shows.{follow-messages}
use attention.AgentLoop.Loop.{
  copied, refuse, run, continue_run, is_empty, ends_with_assistant, start_state,
}
use attention.AgentLoop.Loop.Booked.{EndsWith}
use attention.AgentLoop.Loop.Ended.{run-EndsWith, continue_run-EndsWith}
use attention.AgentLoop.Loop.Plain.{plain_config}
use attention.AgentLoop.Loop.Single.{run-Extended}
use attention.Tests.Loop.{around, calls, context, config, start}

abbrev model : Model
model = record {
  id = "m";
  api = "a";
  provider = "p";
  reasoning = false;
  input = [];
  context_window = 1000;
  max_tokens = 100;
}

abbrev question : AgentMessage
question = ai (new_message user (text_block "what is here?" ∷ []) 1)

abbrev partial : Message
partial = new_message assistant (text_block "One" ∷ []) 2

abbrev answer : Message
answer = new_message assistant (text_block "One file." ∷ []) 2

abbrev answered : Response
answered = record {
  items =
      started_event (some partial)
      ∷ no_event
      ∷ block_event (some partial)
      ∷ done_event (some answer)
      ∷ [];
  result = ok answer;
}

abbrev convert : List AgentMessage → ℕ → Result (List Message) × ℕ
convert ms w = (ok [], w)

abbrev setup : Config ℕ
setup = plain_config model "off" "key" null config convert

-- The provider calls tools until one was executed.
abbrev provider : Request ℕ → ℕ → Response × ℕ
provider r zero = (record { items = done_event (some calls) ∷ []; result = ok calls }, 0)
provider r (suc w) = (answered, suc w)

abbrev answers : Request ℕ → ℕ → Response × ℕ
answers r w = (answered, w)

abbrev outcome : Result (List AgentMessage) × Run ℕ
outcome = run around setup provider 2 (question ∷ []) context start

abbrev messages_of : Result (List AgentMessage) → List AgentMessage
messages_of (ok ms) = ms
messages_of _ = []

answer-calls : tool_calls answer.content ≡ []
unfolding tool_calls new_message text_block is_tool_call
answer-calls = refl

outcome-returns : outcome.0 ≡ ok (messages_of outcome.0)
unfolding run continue_run emit stream_assistant_response is_failed new_message tool_calls
    is_tool_call execute_tool_calls prepare_tool_call emit_end emit_result should_terminate finalize
    executed text_block copied ends_with_assistant is_empty refuse is_assistant as_ai_message
outcome-returns = refl

abbrev resumed : LoopContext ℕ
resumed = record context { messages = question ∷ [] }

abbrev continued : Result (List AgentMessage) × Run ℕ
continued = continue_run around setup provider 2 resumed start

continued-returns : continued.0 ≡ ok (messages_of continued.0)
unfolding run continue_run emit stream_assistant_response is_failed new_message tool_calls
    is_tool_call execute_tool_calls prepare_tool_call emit_end emit_result should_terminate finalize
    executed text_block copied ends_with_assistant is_empty refuse is_assistant as_ai_message
continued-returns = refl

run-EndsWith_example :
    (heard outcome.1 ≡ heard start ++ messages_of outcome.0)
    × EndsWith outcome.1.events (messages_of outcome.0)
run-EndsWith_example =
    run-EndsWith around setup provider 2 (question ∷ []) context start (messages_of outcome.0)
      outcome-returns

continue_run-EndsWith_example :
    (heard continued.1 ≡ heard start ++ messages_of continued.0)
    × EndsWith continued.1.events (messages_of continued.0)
    × (ends_with_assistant resumed.messages ≡ false)
    × (is_empty resumed.messages ≡ false)
continue_run-EndsWith_example =
    continue_run-EndsWith around setup provider 2 resumed start (messages_of continued.0)
      continued-returns

run-Extended_example : Returns (run around setup answers 1 (question ∷ []) context) start (λ all.
    (m : Message) × ((all ≡ map snapshot (question ∷ []) ++ ai m ∷ [])
      × (tool_calls m.content ≡ [])))
run-Extended_example =
    run-Extended around (λ e w. refl) model "off" "key" null config convert answers
      (λ ms w. ([], refl)) (λ r w. (answer, refl, answer-calls)) 0 (question ∷ []) context start

abbrev loop_start : LoopState ℕ
loop_start = start_state around setup provider context start

follow-final_message_example :
    (follow around answered answered.items false loop_start).0
    ≡ final_message answered.items answered.result
follow-final_message_example =
    follow-final_message around (λ e w. refl) answered answered.items false loop_start

follow-messages_example :
    (follow around answered answered.items false loop_start).1.context.messages
    ≡ [] ++ ai answer ∷ []
unfolding start_state
follow-messages_example =
    follow-messages around [] answered answered.items loop_start answer refl
      follow-final_message_example
