-- ===== src/Orchestrator/Transient.antt =====
-- internal/orchestrator/retry.go: `retryTransientError`, and internal/ai/retryable.go. `W` is what the
-- calls of the loop act on: the session, the harness, the clock and the abort signal.
pub mod Settles
use attention.Prelude.{
  ℕ, zero, suc, ◌/◌, String, Bool, true, false, not, List, [], ◌∷◌, ◌++◌, Option, none, some, ◌&&◌,
  ◌⊎◌, inl, inr, ◌==◌, ltb, if◌then◌else◌,
}
use attention.Ai.Types.{Message, StopReason}
use attention.Session.Types.{Result, ok, err, diverges, Error}
use attention.Orchestrator.Retry.{retry_backoff_delay}

-- `autoRetrySettings`; the delay is in nanoseconds.
pub record AutoRetrySettings : Type 0 where
  pub enabled : Bool
  pub max_retries : ℕ
  pub base_delay : ℕ

-- The events of retries.
pub data RetryEvent : Type 0 where
  auto_retry_start : (attempt max_attempts delay_ms : ℕ) (error_message : String) → RetryEvent
  auto_retry_end : (success : Bool) (attempt : ℕ) (final_error : String) → RetryEvent

-- What `waitRetryBackoff` returns.
pub data Wait : Type 0 where
  elapsed aborted : Wait
  wait_failed : Error → Wait

-- `retryAttempt`, and the events that were published.
pub record RetryState (W : Type 0) : Type 0 where
  pub attempt : ℕ
  pub events : List RetryEvent
  pub world : W

-- What surrounds the loop: the wait, `prepareRetryAssistant`, `Continue` of the harness, the test for
-- an overflow of the context (internal/ai/overflow.go), and the pattern of errors that may pass.
pub record RetryCalls (W : Type 0) : Type 0 where
  pub wait_retry_backoff : (delay : ℕ) → W → Wait × W
  pub prepare_retry_assistant : Message → W → Option Error × W
  pub continue : W → (Error ⊎ Message) × W
  pub is_context_overflow : Message → Bool
  pub matches_retryable : String → Bool

-- How a round of the loop ends.
pub data Round : Type 0 where
  stop again : Message → Round
  fails : Error → Round

unfoldable pub is_error : StopReason → Bool
is_error StopReason.error = true
is_error _ = false

unfoldable pub retry_error_message : Message → String
retry_error_message m = if m.error_message == "" then "Unknown error" else m.error_message

module _ {W : Type 0} where
  unfoldable pub publish : RetryEvent → RetryState W → RetryState W
  publish e s = record s { events = s.events ++ e ∷ [] }

  unfoldable pub reset_retry_attempt : RetryState W → RetryState W
  reset_retry_attempt s = record s { attempt = 0 }

  module _ (calls : RetryCalls W) (settings : AutoRetrySettings) where
    -- `IsRetryableError`.
    unfoldable pub is_retryable_error : Message → Bool
    unfolding is_error
    is_retryable_error m =
        is_error m.stop_reason
        && (not (m.error_message == "")
            && (not (calls.is_context_overflow m) && calls.matches_retryable m.error_message))

    -- The condition of the loop.
    unfoldable pub wants_retry : Message → RetryState W → Bool
    unfolding is_retryable_error
    wants_retry m s =
        settings.enabled && (is_retryable_error m && ltb s.attempt settings.max_retries)

    -- The harness has continued.
    unfoldable pub continued : (Error ⊎ Message) → RetryState W → Round × RetryState W
    unfolding publish reset_retry_attempt is_error
    continued (inl e) s = (fails e, s)
    continued (inr m) s = elim (is_error m.stop_reason) [
      | true ↦ (again m, s)
      | false ↦ (stop m, reset_retry_attempt (publish (auto_retry_end true s.attempt "") s))
    ]

    unfoldable pub go_on : Option Error → RetryState W → Round × RetryState W
    unfolding continued
    go_on (some e) s = (fails e, s)
    go_on none s = let (r, w) = calls.continue s.world in continued r (record s { world = w })

    unfoldable pub waited : Message → Wait → RetryState W → Round × RetryState W
    unfolding publish reset_retry_attempt go_on
    waited m (wait_failed e) s = (fails e, reset_retry_attempt s)
    waited m aborted s =
        (stop m, publish (auto_retry_end false s.attempt "Retry cancelled") (reset_retry_attempt s))
    waited m elapsed s =
        let (r, w) = calls.prepare_retry_assistant m s.world in go_on r (record s { world = w })

    -- The body of the loop.
    unfoldable pub round : Message → RetryState W → Round × RetryState W
    unfolding publish waited retry_error_message
    round m s =
        let attempt = suc s.attempt in
        let delay = retry_backoff_delay settings.base_delay attempt in
        let s' =
          publish
            (auto_retry_start attempt settings.max_retries (delay / 1000000)
              (retry_error_message m))
            (record s { attempt = attempt }) in
        let (r, w) = calls.wait_retry_backoff delay s'.world in waited m r (record s' { world = w })

    -- What follows the loop.
    unfoldable pub settle : Message → RetryState W → RetryState W
    unfolding publish reset_retry_attempt retry_error_message is_error
    settle m s =
        if is_error m.stop_reason && ltb 0 s.attempt
        then reset_retry_attempt
            (publish (auto_retry_end false s.attempt (retry_error_message m)) s)
        else s

    unfoldable pub retry_loop : (fuel : ℕ) → Message → RetryState W → Result Message × RetryState W
    unfolding wants_retry round settle
    retry_loop zero m s = elim (wants_retry m s) [
      | true ↦ (diverges, s)
      | false ↦ (ok m, settle m s)
    ]
    retry_loop (suc fuel) m s = elim (wants_retry m s) [
      | true ↦
          let (r, s') = round m s in
          elim r [
            | stop m' ↦ (ok m', s')
            | fails e ↦ (err e, s')
            | again m' ↦ retry_loop fuel m' s'
          ]
      | false ↦ (ok m, settle m s)
    ]

    -- `retryTransientError`; every round counts an attempt.
    unfoldable pub retry_transient_error : Message → RetryState W → Result Message × RetryState W
    unfolding retry_loop
    retry_transient_error m s = retry_loop settings.max_retries m s
