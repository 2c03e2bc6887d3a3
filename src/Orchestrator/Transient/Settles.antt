-- ===== src/Orchestrator/Transient/Settles.antt =====
-- The loop of retries ends, within its number of attempts.
use attention.Prelude.{
  String, ◌≡◌, refl, sym, ap, ◌∙◌, subst, ℕ, zero, suc, ◌+◌, ◌-◌, ◌/◌, ◌≤◌, Bool, true, false, List,
  [], ◌∷◌, ◌++◌, append_assoc, append-nil, Option, none, some, ◌⊎◌, inl, inr, ◌&&◌, ltb, ltb→lt,
  arith, Bool-cases,
}
use attention.Ai.Types.{Message}
use attention.Session.Types.{Result, ok, err, diverges, panics, Error}
use attention.Orchestrator.Retry.{retry_backoff_delay}
use attention.Orchestrator.Transient.{
  AutoRetrySettings, RetryEvent, auto_retry_start, auto_retry_end, Wait, elapsed, aborted,
  wait_failed, RetryState, RetryCalls, Round, stop, again, fails, is_error, retry_error_message,
  publish, reset_retry_attempt, is_retryable_error, wants_retry, continued, go_on, waited, round,
  settle, retry_loop, retry_transient_error,
}

-- The attempts that were started.
abbrev pub starts : List RetryEvent → List ℕ
starts [] = []
starts (auto_retry_start a n d t ∷ es) = a ∷ starts es
starts (auto_retry_end b a t ∷ es) = starts es

-- The numbers behind `a`, `k` of them.
abbrev pub numbers : (a k : ℕ) → List ℕ
numbers a zero = []
numbers a (suc k) = suc a ∷ numbers (suc a) k

-- The loop returned a message and its attempts are over, or it returned an error.
abbrev pub IsSettled : {W : Type 0} → Result Message × RetryState W → Type 0
IsSettled (ok m, s) = s.attempt ≡ 0
IsSettled (err e, s) = Unit
IsSettled (diverges, s) = ⊥
IsSettled (panics, s) = ⊥

starts-append : (es fs : List RetryEvent) → starts (es ++ fs) ≡ starts es ++ starts fs
starts-append [] fs = refl
starts-append (auto_retry_start a n d t ∷ es) fs = ap (λ xs. a ∷ xs) (starts-append es fs)
starts-append (auto_retry_end b a t ∷ es) fs = starts-append es fs

starts-end :
    (es : List RetryEvent) (b : Bool) (a : ℕ) (t : String)
    → starts (es ++ auto_retry_end b a t ∷ []) ≡ starts es
starts-end es b a t = starts-append es (auto_retry_end b a t ∷ []) ∙ append-nil (starts es)

-- How a round ends: the attempts are over, or the last message is an error and the attempt counts.
abbrev HasEnded : {W : Type 0} → ℕ → Round → RetryState W → Type 0
HasEnded a (stop m) s = s.attempt ≡ 0
HasEnded a (again m) s = (s.attempt ≡ a) × (is_error m.stop_reason ≡ true)
HasEnded a (fails e) s = Unit

abbrev RoundDone : {W : Type 0} → ℕ → List ℕ → Round × RetryState W → Type 0
RoundDone a st out = HasEnded a out.0 out.1 × (starts out.1.events ≡ st)

not_over : (b : Bool) (n : ℕ) → (n ≡ 0) ⊎ (b ≡ true) → (b && ltb 0 n) ≡ false → n ≡ 0
not_over b n (inl z) h = z
not_over true n (inr t) h = ground arith
not_over false n (inr t) h = cc

module _ {W : Type 0} (calls : RetryCalls W) (settings : AutoRetrySettings) where
  continued-RoundDone :
      (r : Error ⊎ Message) (s : RetryState W)
      → RoundDone s.attempt (starts s.events) (continued calls settings r s)
  unfolding continued publish reset_retry_attempt
  continued-RoundDone (inl e) s = (tt, refl)
  continued-RoundDone (inr m) s = elim (Bool-cases (is_error m.stop_reason)) [
    | inl e ↦ rw (e, continued) ((refl, e), refl)
    | inr e ↦ rw (e, continued) (refl, starts-end s.events true s.attempt "")
  ]

  go_on-RoundDone :
      (r : Option Error) (s : RetryState W)
      → RoundDone s.attempt (starts s.events) (go_on calls settings r s)
  unfolding go_on
  go_on-RoundDone (some e) s = (tt, refl)
  go_on-RoundDone none s = continued-RoundDone (calls.continue s.world).0 _

  waited-RoundDone :
      (m : Message) (r : Wait) (s : RetryState W)
      → RoundDone s.attempt (starts s.events) (waited calls settings m r s)
  unfolding waited publish reset_retry_attempt
  waited-RoundDone m (wait_failed e) s = (tt, refl)
  waited-RoundDone m aborted s = (refl, starts-end s.events false s.attempt "Retry cancelled")
  waited-RoundDone m elapsed s = go_on-RoundDone (calls.prepare_retry_assistant m s.world).0 _

  round-RoundDone :
      (m : Message) (s : RetryState W)
      → RoundDone (suc s.attempt) (starts s.events ++ suc s.attempt ∷ []) (round calls settings m s)
  unfolding round publish
  round-RoundDone m s =
      let delay = retry_backoff_delay settings.base_delay (suc s.attempt) in
      let e =
        auto_retry_start (suc s.attempt) settings.max_retries (delay / 1000000)
          (retry_error_message m) in
      let (t, same) = waited-RoundDone m (calls.wait_retry_backoff delay s.world).0 _ in
      (t, same ∙ starts-append s.events (e ∷ []))

  settle-zero :
      (m : Message) (s : RetryState W)
      → (s.attempt ≡ 0) ⊎ (is_error m.stop_reason ≡ true)
      → ((settle calls settings m s).attempt ≡ 0)
        × (starts (settle calls settings m s).events ≡ starts s.events)
  unfolding settle publish reset_retry_attempt
  settle-zero m s h = elim (Bool-cases (is_error m.stop_reason && ltb 0 s.attempt)) [
    | inl e ↦ rw e (refl, starts-end s.events false s.attempt (retry_error_message m))
    | inr e ↦ rw e (not_over (is_error m.stop_reason) s.attempt h e, refl)
  ]

  wants_retry-lt :
      (m : Message) (s : RetryState W)
      → wants_retry calls settings m s ≡ true
      → suc s.attempt ≤ settings.max_retries
  unfolding wants_retry
  wants_retry-lt m s h = split settings.enabled (is_retryable_error calls settings m) h
    where
      split :
          (a b : Bool)
          → (a && (b && ltb s.attempt settings.max_retries)) ≡ true
          → suc s.attempt ≤ settings.max_retries
      split true true h = let less = ltb→lt s.attempt settings.max_retries h in omega (less, arith)
      split true false h = cc
      split false b h = cc

  -- The attempts of a run of the loop from the attempt `a`.
  abbrev Counts : ℕ → List ℕ → Result Message × RetryState W → Type 0
  Counts a st out =
      IsSettled out
      × ((k : ℕ) × (starts out.1.events ≡ st ++ numbers a k) × (k ≤ settings.max_retries - a))

  no_round :
      (m : Message) (s : RetryState W)
      → (s.attempt ≡ 0) ⊎ (is_error m.stop_reason ≡ true)
      → Counts s.attempt (starts s.events) (ok m, settle calls settings m s)
  no_round m s h =
      let (z, same) = settle-zero m s h in
      (z, (0, same ∙ sym (append-nil (starts s.events)), omega arith))

  -- One attempt was started, and these of the rest.
  more :
      (a : ℕ) (st : List ℕ) (out : Result Message × RetryState W)
      → suc a ≤ settings.max_retries
      → Counts (suc a) (st ++ suc a ∷ []) out
      → Counts a st out
  more a st out h (z, (k, same, few)) =
      (z, (suc k, same ∙ append_assoc st (suc a ∷ []) (numbers (suc a) k), omega (h, few, arith)))

  one :
      (a : ℕ) (st : List ℕ) (out : Result Message × RetryState W)
      → suc a ≤ settings.max_retries
      → IsSettled out
      → starts out.1.events ≡ st ++ suc a ∷ []
      → Counts a st out
  one a st out h z same = (z, (1, same, omega (h, arith)))

  retry_loop-Counts :
      (fuel : ℕ) (m : Message) (s : RetryState W)
      → settings.max_retries ≤ s.attempt + fuel
      → (s.attempt ≡ 0) ⊎ (is_error m.stop_reason ≡ true)
      → Counts s.attempt (starts s.events) (retry_loop calls settings fuel m s)
  unfolding retry_loop
  retry_loop-Counts zero m s few h = elim (Bool-cases (wants_retry calls settings m s)) [
    | inl e ↦ let less = wants_retry-lt m s e in absurd (omega (less, few, arith))
    | inr e ↦ rw (e, retry_loop) (no_round m s h)
  ]
  retry_loop-Counts (suc fuel) m s few h = elim (Bool-cases (wants_retry calls settings m s)) [
    | inl e ↦
        rw (e, retry_loop)
          (rounds (round calls settings m s) (round-RoundDone m s) (wants_retry-lt m s e)
            (λ m' s' few' h'. retry_loop-Counts fuel m' s' few' h'))
    | inr e ↦ rw (e, retry_loop) (no_round m s h)
  ]
    where
      rounds :
          (out : Round × RetryState W)
          → RoundDone (suc s.attempt) (starts s.events ++ suc s.attempt ∷ []) out
          → suc s.attempt ≤ settings.max_retries
          → ((m' : Message) (s' : RetryState W)
              → settings.max_retries ≤ s'.attempt + fuel
              → (s'.attempt ≡ 0) ⊎ (is_error m'.stop_reason ≡ true)
              → Counts s'.attempt (starts s'.events) (retry_loop calls settings fuel m' s'))
          → Counts s.attempt (starts s.events) (elim out.0 [
            | stop m' ↦ (ok m', out.1)
            | fails e ↦ (err e, out.1)
            | again m' ↦ retry_loop calls settings fuel m' out.1
          ])
      rounds (stop m', s') (z, same) less k =
          one s.attempt (starts s.events) (ok m', s') less z same
      rounds (fails e, s') (_, same) less k =
          one s.attempt (starts s.events) (err e, s') less tt same
      rounds (again m', s') ((z, is_err), same) less k =
          more s.attempt (starts s.events) (retry_loop calls settings fuel m' s') less (
            subst
              (λ a.
                Counts a (starts s.events ++ suc s.attempt ∷ [])
                  (retry_loop calls settings fuel m' s'))
              z
              (subst (λ st. Counts s'.attempt st (retry_loop calls settings fuel m' s')) same
                (k m' s' (omega (z, few, arith)) (inr is_err))))

  -- From no attempt the loop of retries ends; where it returns a message the attempts are over again.
  -- The attempts that it starts are the numbers from 1 on, at most as many as the settings allow.
  pub retry_transient_error-IsSettled :
      (m : Message) (s : RetryState W)
      → s.attempt ≡ 0
      → let out = retry_transient_error calls settings m s in
        IsSettled out
        × ((k : ℕ) × (starts out.1.events ≡ starts s.events ++ numbers 0 k)
            × (k ≤ settings.max_retries))
  unfolding retry_transient_error
  retry_transient_error-IsSettled m s z =
      let (settled, (k, same, few)) =
        retry_loop-Counts settings.max_retries m s (omega arith) (inl z) in
      (settled, (k, same ∙ ap (λ a. starts s.events ++ numbers a k) z, omega (few, arith)))
