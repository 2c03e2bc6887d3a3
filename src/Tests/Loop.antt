-- ===== src/Tests/Loop.antt =====
-- The theorem on tool calls at a message that calls a tool twice, and one that is not there.
use attention.Prelude.{ℕ, suc, ◌≡◌, refl, String, [], ◌∷◌, none, false, inr}
use attention.Value.{null}
use attention.Ai.Types.{ContentBlock, Message, new_message, text_block, assistant, tool_call}
use attention.Ai.Transform.{tool_calls}
use attention.Session.Types.{ok}
use attention.AgentLoop.Types.{
  Event, ToolResult, Tool, LoopContext, ToolConfig, Surroundings, returned,
}
use attention.AgentLoop.Tools.{Run}
use attention.AgentLoop.Tools.Returns.{Returns, IsReply}
use attention.AgentLoop.Batch.{execute_tool_calls}
use attention.AgentLoop.Batch.Along.{Along, IsStopped}
use attention.AgentLoop.Batch.Answers.{behind_calls, execute_tool_calls-Along}

-- The world counts the executions. The second call completes first.
abbrev pub around : Surroundings ℕ
around = record {
  sink = λ e w. (ok tt, w);
  is_cancelled = λ w. false;
  now = λ w. 0;
  completion_order = λ w. 1 ∷ 0 ∷ [];
  validate = λ name parameters args. inr args;
}

abbrev listing : ToolResult
listing = record {
  content = text_block "a.go" ∷ [];
  details = null;
  is_error = false;
  terminate = false;
}

abbrev ls : Tool ℕ
ls = record {
  name = "ls";
  is_sequential = false;
  parameters = null;
  prepare_args = none;
  execute = λ id args w. (record { updates = listing ∷ []; outcome = returned listing }, suc w);
}

abbrev call : (id name : String) → ContentBlock
call id name = record (text_block "") {
  block_type = tool_call;
  tool_call_id = id;
  tool_name = name;
}

abbrev pub calls : Message
calls = new_message assistant (call "c1" "ls" ∷ call "c2" "ls" ∷ call "c3" "rm" ∷ []) 1

abbrev pub context : LoopContext ℕ
context = record { system_prompt = ""; messages = []; tools = ls ∷ [] }

abbrev pub config : ToolConfig ℕ
config = record { is_sequential = false; before_tool_call = none; after_tool_call = none }

abbrev pub start : Run ℕ
start = record { world = 0; events = [] }

accepted : (e : Event) (w : ℕ) → (around.sink e w).0 ≡ ok tt
accepted e w = refl

execute_tool_calls-Along_example :
    Returns (execute_tool_calls around context calls config) start λ b.
      Along IsReply
        (IsStopped around (behind_calls around context calls config accepted start))
        (tool_calls calls.content)
        b.messages
execute_tool_calls-Along_example =
    execute_tool_calls-Along around context calls config accepted start
