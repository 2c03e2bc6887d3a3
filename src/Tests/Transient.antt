-- ===== src/Tests/Transient.antt =====
-- The theorem on retries at an overloaded provider that answers at the second attempt.
use attention.Prelude.{ℕ, suc, ◌≡◌, zero, ◌≤◌, ◌++◌, refl, true, false, [], ◌∷◌, none, inr}
use attention.Ai.Types.{Message, new_message, text_block, assistant, StopReason}
use attention.Orchestrator.Transient.{
  AutoRetrySettings, RetryState, RetryCalls, elapsed, retry_transient_error,
}
use attention.Orchestrator.Transient.Settles.{
  starts, numbers, IsSettled, retry_transient_error-IsSettled,
}

abbrev overloaded : Message
overloaded = record (new_message assistant [] 1) {
  stop_reason = StopReason.error;
  error_message = "overloaded";
}

abbrev answer : Message
answer = record (new_message assistant (text_block "here" ∷ []) 2) { stop_reason = StopReason.stop }

-- The world counts the calls of the provider.
abbrev calls : RetryCalls ℕ
calls = record {
  wait_retry_backoff = λ delay w. (elapsed, w);
  prepare_retry_assistant = λ m w. (none, w);
  continue = λ w. (inr (elim w [ zero ↦ overloaded | suc _ ↦ answer ]), suc w);
  is_context_overflow = λ m. false;
  matches_retryable = λ t. true;
}

abbrev settings : AutoRetrySettings
settings = record { enabled = true; max_retries = 3; base_delay = 2000000000 }

abbrev start : RetryState ℕ
start = record { attempt = 0; events = []; world = 0 }

retry_transient_error-IsSettled_example :
    let out = retry_transient_error calls settings overloaded start in
    IsSettled out
    × ((k : ℕ) × (starts out.1.events ≡ starts start.events ++ numbers 0 k)
        × (k ≤ settings.max_retries))
retry_transient_error-IsSettled_example =
    retry_transient_error-IsSettled calls settings overloaded start refl
