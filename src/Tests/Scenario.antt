-- ===== src/Tests/Scenario.antt =====
-- A session in memory with a question and an answer to it, for the examples.
use attention.Prelude.{ℕ, refl, String, show_nat, [], ◌∷◌, none}
use attention.Prelude.Dict.{get, put}
use attention.Ai.Types.{new_message, text_block, user, assistant, Role}
use attention.Message.{AgentMessage, ai}
use attention.Session.Types.{Body}
use attention.Session.Core.{empty, add_entry, leaf_id_after_entry, get_leaf_id}
use attention.Session.Tree.{IsValid, empty-IsValid}
use attention.Session.Operations.{append}
use attention.Session.Operations.Append.{append-IsValid}
use attention.Session.Memory.{
  MemoryStorage, memory, memory-Laws, new_storage, draw_id, create_entry_id, append_entry,
}
use attention.Session.Storage.{SessionStorage, Laws, IsFresh}

abbrev pub ids : ℕ → String
ids = show_nat

abbrev pub said : Role → String → AgentMessage
said role text = ai (new_message role (text_block text ∷ []) 0)

abbrev pub store : SessionStorage MemoryStorage
store = memory ids

abbrev pub laws : Laws store
laws = memory-Laws ids

abbrev pub start : MemoryStorage
start = new_storage "session" "/work" "t0"

pub start-IsValid : IsValid start.core
unfolding new_storage
start-IsValid = empty-IsValid

pub start-IsFresh : IsFresh store start
unfolding new_storage empty get create_entry_id draw_id
start-IsFresh = refl

abbrev pub question : Body
question = Body.message (said user "what is it?")

abbrev pub answer : Body
answer = Body.message (said assistant "this")

abbrev pub asked : MemoryStorage
asked = (append store none "t1" question start).1

pub asked-IsValid : IsValid asked.core
asked-IsValid = append-IsValid laws start-IsValid start-IsFresh "t1" question tt

pub asked-IsFresh : IsFresh store asked
unfolding append new_storage empty get put get_leaf_id add_entry create_entry_id append_entry
    draw_id show_nat
asked-IsFresh = refl

abbrev pub answered : MemoryStorage
answered = (append store none "t2" answer asked).1

pub answered-IsValid : IsValid answered.core
answered-IsValid = append-IsValid laws asked-IsValid asked-IsFresh "t2" answer tt

pub answered-IsFresh : IsFresh store answered
unfolding append new_storage empty get put get_leaf_id add_entry create_entry_id append_entry
    draw_id leaf_id_after_entry show_nat
answered-IsFresh = refl
