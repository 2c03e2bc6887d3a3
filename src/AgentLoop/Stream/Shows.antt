-- ===== src/AgentLoop/Stream/Shows.antt =====
-- What the streamed response of a turn leaves in the context: one message, whatever updates it had.
use attention.Prelude.{
  ◌≡◌, refl, ap, ◌∙◌, Bool, true, false, List, [], ◌∷◌, ◌++◌, none, some, if◌then◌else◌,
}
use attention.Ai.Types.{Message}
use attention.Message.{AgentMessage, ai}
use attention.Session.Types.{Result, ok, err, diverges, panics, Error}
use attention.Session.Storage.{Action, pure, lift, ◌>>◌}
use attention.Session.Storage.After.{After, bind-After, always-After}
use attention.AgentLoop.Types.{message_start, message_update, message_end, Surroundings, Event}
use attention.AgentLoop.Config.{
  LoopState, Response, StreamItem, iter_failed, no_event, started_event, block_event, done_event,
  other_event, report,
}
use attention.AgentLoop.Stream.{
  replace_last, put_message, deliver, recover, begin_message, update_message, follow,
}

replace_last-append :
    (m x : AgentMessage) (ms : List AgentMessage) → replace_last m (ms ++ x ∷ []) ≡ ms ++ m ∷ []
unfolding replace_last
replace_last-append m x [] = refl
replace_last-append m x (y ∷ []) = refl
replace_last-append m x (y ∷ z ∷ zs) = ap (λ ms. y ∷ ms) (replace_last-append m x (z ∷ zs))

-- The context has the messages `before`, and then the message that was started.
abbrev Shows : {W : Type 0} → List AgentMessage → (started : Bool) → LoopState W → Type 0
Shows before true s = (m : AgentMessage) × (s.context.messages ≡ before ++ m ∷ [])
Shows before false s = s.context.messages ≡ before

abbrev said : AgentMessage → Result Message → AgentMessage
said x (ok m) = ai m
said x _ = x

module _ {W : Type 0} (around : Surroundings W) (before : List AgentMessage) where
  abbrev Ends : Message → LoopState W → Type 0
  Ends m s = s.context.messages ≡ before ++ ai m ∷ []

  put_message-Ends :
      (started : Bool) (m : Message) (s : LoopState W)
      → Shows before started s
      → After (put_message started m) s (λ _ s'. Ends m s')
  unfolding put_message
  put_message-Ends true m s (x, h) =
      always-After (put_message true m) s
        (λ _. ap (replace_last (ai m)) h ∙ replace_last-append (ai m) x before)
  put_message-Ends false m s h =
      always-After (put_message false m) s (λ _. ap (λ ms. ms ++ ai m ∷ []) h)

  report-Ends :
      (e : Event) (m : Message) (s : LoopState W)
      → Ends m s
      → After (report around e) s (λ _ s'. Ends m s')
  report-Ends e m s h = always-After (report around e) s (λ _. h)

  deliver-Ends :
      (started : Bool) (m : Message) (s : LoopState W)
      → Shows before started s
      → After (deliver around started m) s Ends
  unfolding deliver
  deliver-Ends started m s h =
      bind-After (put_message started m) _ s (put_message-Ends started m s h) λ _ s1 h1.
        bind-After (if_new started) (λ _. report around (message_end (ai m)) >> pure m) s1
          (if_new-Ends started s1 h1)
          λ _ s2 h2.
            bind-After (report around (message_end (ai m))) (λ _. pure m) s2
              (report-Ends (message_end (ai m)) m s2 h2)
              λ _ s3 h3. record { leaves = λ a e. h3 ∙ ap (λ r. before ++ said (ai m) r ∷ []) e }
    where
      if_new : Bool → Action (LoopState W) (Unit {0})
      if_new started = if started then pure tt else report around (message_start (ai m))

      if_new-Ends :
          (started : Bool) (s : LoopState W)
          → Ends m s
          → After (if_new started) s (λ _ s'. Ends m s')
      if_new-Ends true s h = always-After (if_new true) s (λ _. h)
      if_new-Ends false s h = report-Ends (message_start (ai m)) m s h

  recover-Ends :
      (started : Bool) (e : Error) (r : Result Message) (s : LoopState W)
      → Shows before started s
      → After (recover around started e r) s Ends
  unfolding recover
  recover-Ends started e (ok m) s h = deliver-Ends started m s h
  recover-Ends started e (err x) s h = record { leaves = λ a q. cc }
  recover-Ends started e diverges s h = record { leaves = λ a q. cc }
  recover-Ends started e panics s h = record { leaves = λ a q. cc }

  -- A message takes its place and is reported, and the rest goes on from there.
  put_and_follow-Ends :
      (started : Bool) (m : Message) (e : Event) (rest : Action (LoopState W) Message)
      (s : LoopState W)
      → Shows before started s
      → ((s' : LoopState W) → Shows before true s' → After rest s' Ends)
      → After (put_message started m >> report around e >> rest) s Ends
  put_and_follow-Ends started m e rest s h k =
      bind-After (put_message started m >> report around e) (λ _. rest) s
        (bind-After (put_message started m) (λ _. report around e) s
          (put_message-Ends started m s h) (λ _ s1 h1. report-Ends e m s1 h1))
        (λ _ s2 h2. k s2 (ai m, h2))

  follow-Ends :
      (response : Response) (items : List StreamItem) (started : Bool) (s : LoopState W)
      → Shows before started s
      → After (follow around response items started) s Ends
  unfolding follow begin_message update_message
  follow-Ends response [] started s h =
      bind-After (lift response.result) (deliver around started) s
        (always-After {Q = λ _ s'. Shows before started s'} (lift response.result) s (λ _. h))
        (λ m s' h'. deliver-Ends started m s' h')
  follow-Ends response (iter_failed e ∷ items) started s h =
      recover-Ends started e response.result s h
  follow-Ends response (started_event (some m) ∷ items) true s h =
      bind-After (put_message true m) (λ _. follow around response items true) s
        (put_message-Ends true m s h) (λ _ s' h'. follow-Ends response items true s' (ai m, h'))
  follow-Ends response (started_event (some m) ∷ items) false s h =
      put_and_follow-Ends false m (message_start (ai m)) (follow around response items true) s h
        (follow-Ends response items true)
  follow-Ends response (block_event (some m) ∷ items) true s h =
      put_and_follow-Ends true m (message_update (ai m)) (follow around response items true) s h
        (follow-Ends response items true)
  follow-Ends response (block_event (some m) ∷ items) false s h =
      follow-Ends response items false s h
  follow-Ends response (block_event none ∷ items) true s h = follow-Ends response items true s h
  follow-Ends response (block_event none ∷ items) false s h = follow-Ends response items false s h
  follow-Ends response (done_event (some m) ∷ items) started s h = deliver-Ends started m s h
  follow-Ends response (done_event none ∷ items) started s h = record { leaves = λ a q. cc }
  follow-Ends response (started_event none ∷ items) true s h = follow-Ends response items true s h
  follow-Ends response (started_event none ∷ items) false s h = follow-Ends response items false s h
  follow-Ends response (no_event ∷ items) started s h = follow-Ends response items started s h
  follow-Ends response (other_event ∷ items) started s h = follow-Ends response items started s h

  -- Where the loop over a response's events returns a message, the context has got this one message at
  -- its end, whatever partial messages the events showed before it, and also where it came from the
  -- result of the response because the iterator ended or failed.
  pub follow-messages :
      (response : Response) (items : List StreamItem) (s : LoopState W) (m : Message)
      → s.context.messages ≡ before
      → (follow around response items false s).0 ≡ ok m
      → (follow around response items false s).1.context.messages ≡ before ++ ai m ∷ []
  follow-messages response items s m h e = (follow-Ends response items false s h).leaves m e
