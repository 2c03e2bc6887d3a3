-- ===== src/Lib.antt =====
-- The core of Attention (`along`), an agent that works in a terminal: the sessions that it keeps,
-- the transcript that it sends to a model, its tool calls, and the compaction of long sessions.
--
-- The parts, and where they are in the repository:
--   internal/session     a session is a tree of entries with a leaf; its operations append entries
--                        below the leaf or move the leaf; a storage keeps the entries.
--   internal/message     the messages of a session, and what of them a provider is told.
--   internal/ai          the messages of providers; transform.go fits a transcript to a model.
--   internal/agentloop   the loop of the agent: a model's message may call tools, whose results
--                        go back to the model.
--   internal/tool        the tools that a model may call; truncate.go limits their output, and
--                        editdiff.go shows what an edit changed.
--   internal/orchestrator  runs the parts together; retry.go repeats a turn that failed.
--   internal/harness     compact.go decides which part of a branch a summary replaces.
--
-- The files:
--   Prelude, Prelude/    shared names, lists, dictionaries and texts.
--   Value                values of JSON (Go's `any`).
--   Ai/Types             internal/ai/types.go: content blocks, roles, messages.
--   Ai/Transform         internal/ai/transform.go: TransformMessages and its loops. `transform_content`
--                        is transformAssistantContent, `replace_images` is
--                        replaceImagesWithPlaceholder. Its children prove.
--   Message              internal/message: AgentMessage, DefaultConvertToLLM, AsAIMessage, Snapshot.
--   Session/Types        internal/session/types.go and errors.go.
--   Session/Core         what both storages keep in memory: entries, byID, leafID, labels, with the
--                        methods that are the same text in memory.go and storage.go.
--   Session/Storage      the interface SessionStorage and the laws that both storages keep.
--                        Storage/After has the rules for what an action leaves.
--   Session/Operations   internal/session/session.go over any storage; Operations/Append,
--                        Operations/Moves and Operations/Labels prove. Calls has every call
--                        that changes a session.
--   Session/Tree, Tree/  the well-formed tree and its branches.
--   Session/Memory       internal/session/memory.go.
--   Session/Jsonl        internal/session/storage.go: the file that is written late. Jsonl/Sync is
--                        about file and memory, Jsonl/Header models the header line, Jsonl/Reopen
--                        OpenJSONL, and Jsonl/Restart joins them.
--   Session/Json         internal/session/json.go: SessionEntry.MarshalJSON, and in Json/Decode
--                        decodeEntry. Json/Message has the messages of internal/message/custom.go,
--                        Json/Fields the members of objects; Json/Kept and Json/RoundTrip prove.
--   Session/Migrate      migrateSessionFile of storage.go; Migrate/Chained proves.
--   Session/Fork         getEntriesToFork of internal/session/repo.go.
--   Session/Context      buildContextFromPath of session.go; Context/Refine and Context/Latest prove.
--   Harness/Estimate     the token estimates of internal/harness/compact.go.
--   Harness/CutPoint     findCutPoint; CutPoint/Bounds proves.
--   Harness/Prepare      prepareCompaction; Prepare/Split proves.
--   AgentLoop/Types      internal/agentloop/types.go and internal/tool/tool.go.
--   AgentLoop/Tools      one tool call of internal/agentloop/loop.go: prepareToolCall,
--                        executePreparedToolCall, finalizeExecutedToolCall and the events.
--   AgentLoop/Batch      executeToolCalls with its sequential and its parallel mode. Batch/Along,
--                        Batch/Complete, Batch/Answers, Batch/Silent and Batch/Ended prove.
--   AgentLoop/Config     the configuration of a run with its callbacks, and the state of its loop.
--   AgentLoop/Stream     streamAssistantResponse; Stream/Ended, Stream/Shows and Stream/Final prove.
--   AgentLoop/Loop       run, continueRun and runLoop. Loop/Booked, Loop/Turn and Loop/Ended are
--                        about what is reported, Loop/Plain and Loop/Single about a run that ends in one turn.
--   Tool/Truncate        truncateHead of internal/tool/builtin/truncate.go; Truncate/Fits proves.
--     Tail, Partial      truncateTail and truncateStringToBytesFromEnd, with their proofs.
--   Tool/Diff            lineDiffItems, diffGroups and unifiedPatchHunks of
--                        internal/tool/builtin/editdiff.go; its children prove.
--   Orchestrator/Retry   retryBackoffDelay of internal/orchestrator/retry.go.
--   Orchestrator/Transient  retryTransientError of retry.go and IsRetryableError of
--                        internal/ai/retryable.go; Transient/Settles proves.
--   Tests, Tests/        the theorems at concrete inputs.
--
-- State is passed on: a method of a storage is a function from the storage to a result and the
-- storage that it leaves, on errors too. A session holds its lock during a call, so that a session
-- is the sequence of its calls. A cancelled context is the error that it has (`Ctx`). Pointers to
-- messages and plain messages are the same value, as every switch treats them alike; a nil pointer
-- is `nil`.
--
-- Parameters: the random ids (`new_random_id`), the clock (`now`), which writes to the disk fail
-- (`disk`), the milliseconds of a timestamp (`parse_millis`), the length of a JSON text
-- (`marshal_length`), and decoding of JSON (`decode`). For tool calls, `Surroundings` has the event
-- sink, the cancellation, the clock, the order in which parallel calls complete, and the check of
-- arguments of internal/ai/validation.go, which is not modelled; tools and hooks are functions. So
-- are the callbacks of a run and the provider, whose response is the list of what it yields. For
-- lines, `Codec` has the text of JSON, number literals and the objects of provider messages. For retries,
-- `RetryCalls` has the wait, the session, the harness and the pattern of errors.
--
-- Fuel: the walk from an entry to the root has one unit more than there are entries, and running
-- out of it is the loop that does not end (`diverges`). In a well-formed session it never runs out.
-- A run of the agent has one unit for each turn; how many it takes is up to the provider. The loop of a difference has one unit for each line of the two
-- texts, and the loop of retries one for each attempt that the settings allow, which is enough.
-- Every other loop is by recursion on its list or its index. Machine integers are natural numbers:
-- counts of tokens and of bytes are far below the bounds of 64 bits; the delay of a retry, which is
-- not, has its bounds written out.
--
-- Not modelled: the text of JSON lines, the directory and the list of sessions, the matching of
-- edits and most of the built-in tools, providers, hooks, extensions, authentication, settings, the
-- recovery from overflow, and the front ends.
pub mod Prelude
pub mod Value
pub mod Ai
pub mod Message
pub mod Session
pub mod Harness
pub mod AgentLoop
pub mod Tool
pub mod Orchestrator
pub mod Tests
