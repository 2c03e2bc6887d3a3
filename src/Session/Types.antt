-- ===== src/Session/Types.antt =====
-- internal/session/types.go and errors.go: entries, session errors, and the results of calls.
-- The fields of `SessionEntry` that only one `Type` uses are the arguments of that type's
-- constructor. `Raw`, the undecoded line, is kept for a type that is not known, as the JSON that it
-- stands for: of other entries no modelled code reads it.
use attention.Prelude.{ℕ, String, Bool, Option, some, none, List}
use attention.Value.{Value}
use attention.Message.{AgentMessage, Content}

-- `SessionEntry.Type` with the fields that go with it.
pub data Body : Type 0 where
  message : AgentMessage → Body
  model_change : (provider model_id : String) → Body
  thinking_level_change : (level : String) → Body
  compaction :
      (summary first_kept_entry_id : String) (tokens_before : ℕ) (details : Value)
      (from_hook : Bool)
      → Body
  branch_summary :
      (summary : String) (from_id : Option String) (details : Value) (from_hook : Bool) → Body
  custom : (custom_type : String) (payload : Value) → Body
  custom_message :
      (custom_type : String) (content : Content) (display : Bool) (details : Value) → Body
  label : (target_id : Option String) (text : String) → Body
  session_info : (name : String) → Body
  leaf : (target_id : Option String) → Body
  other : (type_name : String) (raw : Option Value) → Body

pub record SessionEntry : Type 0 where
  pub id : String
  pub parent_id : Option String
  pub timestamp : String
  pub body : Body

pub data ErrorCode : Type 0 where
  invalid_session invalid_entry not_found invalid_fork_target storage unknown : ErrorCode
  -- an error that is no session error, such as a cancelled context
  foreign : ErrorCode

pub record Error : Type 0 where
  pub code : ErrorCode
  pub text : String

-- `diverges`: the loop of the call does not end. `panics`: an index out of range.
pub data Result {ℓ} (A : Type ℓ) : Type ℓ where
  ok : A → Result A
  err : Error → Result A
  diverges panics : Result A

infixl 5 ◌>>=◌ ◌>>◌
abbrev pub ◌>>=◌ {ℓ κ} : {A : Type ℓ} {B : Type κ} → Result A → (A → Result B) → Result B
ok a >>= f = f a
err e >>= f = err e
diverges >>= f = diverges
panics >>= f = panics

abbrev pub ◌>>◌ {ℓ} : {B : Type ℓ} → Result (Unit {0}) → Result B → Result B
m >> k = m >>= λ _. k

-- `if err := ctx.Err(); err != nil { return err }`: a context is the error that it has now.
abbrev pub Ctx : Type 0
Ctx = Option Error

abbrev pub check_ctx : Ctx → Result (Unit {0})
check_ctx none = ok tt
check_ctx (some e) = err e

-- `Context` and `ModelRef`.
pub record ModelRef : Type 0 where
  pub provider : String
  pub model_id : String

pub record Context : Type 0 where
  pub messages : List AgentMessage
  pub thinking_level : String
  pub model : Option ModelRef

-- `BranchSummary`, the argument of `MoveTo`.
pub record BranchSummary : Type 0 where
  pub summary : String
  pub details : Value
  pub from_hook : Bool

pub record Metadata : Type 0 where
  pub id : String
  pub cwd : String
  pub created_at : String
  pub path : String
  pub parent_session_path : String
