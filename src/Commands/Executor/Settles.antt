-- ===== src/Commands/Executor/Settles.antt =====
-- What commands/executor.py leaves in the journal, whatever a handler returns or raises.
use browseterm_device_agent.Prelude.{
  ℕ, String, ◌≡◌, ◌≢◌, refl, Option, none, some, arith, inl, inr, ◌∙◌,
}
use browseterm_device_agent.Text.{take_chars}
use browseterm_device_agent.Effects.{Result, ok, err, Exc, stuck, other, Result-cases}
use browseterm_device_agent.State.Journal.{Outcome}
use browseterm_device_agent.State.Placement.{PlacementCache}
use browseterm_device_agent.Commands.Env.{ExecuteCommand, Env, Reply, Handler}
use browseterm_device_agent.Commands.Executor.{
  Handlers, Report, execute, attempt, start, finish, place_if_succeeded, outcome_of, failed_with,
  exc_text, update_placement,
}
use browseterm_device_agent.Commands.Executor.Rules.{
  IsReport, HasRow, Settled, Settled-HasRow, start-HasRow, place-journal, attempt-ok, attempt-err,
  recover-finish, execute-ok, execute-err, finish-Settled,
}
use browseterm_device_agent.Agent.{Agent}

-- What the handler's result is recorded as: the reply, or the exception.
abbrev pub recorded : Result Reply → Outcome
recorded (ok reply) = outcome_of reply
recorded (err e) = failed_with "HANDLER_EXCEPTION" (take_chars 1000 (exc_text e))

-- The cache after the handler's result.
abbrev pub placed : ExecuteCommand → Result Reply → Option PlacementCache → Option PlacementCache
placed command (ok reply) cache = elim reply.error_code [
  | none ↦ update_placement command cache
  | some code ↦ cache
]
placed command (err e) cache = cache

module _ {W : Type 0} (env : Env W) (report_result : Report W) (handlers : Handlers W)
    (is_report : IsReport report_result) (id : String) (command : ExecuteCommand) (a : Agent W)
    (handler : Handler W) (registered : handlers command.operation ≡ some handler) where
  abbrev pub begun : Agent W
  begun = start env id command a

  abbrev pub tried : Result (Unit {0}) × Agent W
  tried = attempt env report_result id command handler begun

  pub begun-HasRow : HasRow id begun.journal
  unfolding start
  begun-HasRow = start-HasRow _ id _ _ a.journal

  begun-world : begun.world ≡ a.world
  unfolding start
  begun-world = refl

  begun-cache : begun.placement_cache ≡ a.placement_cache
  unfolding start
  begun-cache = refl

  abbrev pub after_handler : Reply → Agent W
  after_handler reply =
      place_if_succeeded command reply (record begun { world = (handler command begun.world).1 })

  pub after-HasRow : (reply : Reply) → HasRow id (after_handler reply).journal
  after-HasRow reply = rw place-journal begun-HasRow

  pub tried-finish :
      (reply : Reply)
      → (handler command a.world).0 ≡ ok reply
      → tried
        ≡ finish env report_result id command.placement_generation
            (outcome_of reply)
            (after_handler reply)
  tried-finish reply h =
      attempt-ok env report_result handlers id command handler begun reply (rw begun-world h)

  -- The handler returned, and its reply was recorded and reported.
  pub tried-ok :
      (reply : Reply)
      → (handler command a.world).0 ≡ ok reply
      → Settled id (outcome_of reply) tried.1.journal
  tried-ok reply h = rw (tried-finish reply h) (
      finish-Settled env report_result handlers is_report id _ (outcome_of reply)
        (after_handler reply) (after-HasRow reply))

  pub tried-err :
      (e : Exc)
      → (handler command a.world).0 ≡ err e
      → tried ≡ (err e, record begun { world = (handler command begun.world).1 })
  tried-err e h =
      attempt-err env report_result handlers id command handler begun e (rw begun-world h)

  pub tried-HasRow : HasRow id tried.1.journal
  tried-HasRow = elim (Result-cases (handler command a.world).0) [
    | inl (reply, h) ↦ Settled-HasRow id (outcome_of reply) (tried-ok reply h)
    | inr (e, h) ↦ rw (tried-err e h) begun-HasRow
  ]

  abbrev pub executed : Result (Unit {0}) × Agent W
  executed = execute env report_result handlers id command a

  -- Whatever raised in the `try`, the failure is recorded.
  pub rescued-Settled :
      (e : Exc)
      → tried.0 ≡ err e
      → e ≢ stuck
      → Settled id
          (failed_with "HANDLER_EXCEPTION" (take_chars 1000 (exc_text e)))
          executed.1.journal
  rescued-Settled e h alive =
      rw
        (
          execute-err env report_result handlers id command a handler e registered h,
          recover-finish env report_result handlers id command e tried.1 alive,
        )
        (finish-Settled env report_result handlers is_report id _ _ tried.1 tried-HasRow)

  module _
      (quiet : (generation : ℕ) (o : Outcome) (b : Agent W)
        → (report_result id generation o b).0 ≡ ok tt) where
    finish-quiet :
        (o : Outcome) (b : Agent W)
        → (finish env report_result id command.placement_generation o b).0 ≡ ok tt
    unfolding finish
    finish-quiet o b = quiet command.placement_generation o _

    finish-cache :
        (o : Outcome) (b : Agent W)
        → (finish env report_result id command.placement_generation o b).1.placement_cache
          ≡ b.placement_cache
    unfolding finish
    finish-cache o b = is_report.cache id command.placement_generation o _

    after-cache :
        (reply : Reply)
        → (after_handler reply).placement_cache ≡ placed command (ok reply) a.placement_cache
    unfolding place_if_succeeded start
    after-cache reply = ground arith

    quiet-ok : (reply : Reply) → (handler command a.world).0 ≡ ok reply → executed ≡ tried
    quiet-ok reply h =
        execute-ok env report_result handlers id command a handler registered
          (rw (tried-finish reply h) (finish-quiet _ _))

    quiet-err :
        (e : Exc)
        → (handler command a.world).0 ≡ err e
        → e ≢ stuck
        → executed
          ≡ finish env report_result id command.placement_generation (recorded (err e)) tried.1
    quiet-err e h alive =
        rw
          (execute-err env report_result handlers id command a handler e registered
            (rw (tried-err e h) refl))
          (recover-finish env report_result handlers id command e tried.1 alive)

  -- If a handler is registered for the command and does not hang, and the report returns and
  -- takes no result back, then the execution returns, the command's row holds the handler's
  -- reply, or HANDLER_EXCEPTION if it raised, and the placement cache is updated exactly if the
  -- reply is a success.
  pub execute-Settled :
      ((generation : ℕ) (o : Outcome) (b : Agent W) → (report_result id generation o b).0 ≡ ok tt)
      → (handler command a.world).0 ≢ err stuck
      → let r = (handler command a.world).0 in
        ((execute env report_result handlers id command a).0 ≡ ok tt)
        × Settled id (recorded r) (execute env report_result handlers id command a).1.journal
        × ((execute env report_result handlers id command a).1.placement_cache
            ≡ placed command r a.placement_cache)
  execute-Settled quiet alive = elim (Result-cases (handler command a.world).0) [
    | inl (reply, h) ↦
        rw (h, quiet-ok quiet reply h)
          (
            rw (tried-finish reply h) (finish-quiet quiet _ _),
            tried-ok reply h,
            rw (tried-finish reply h) (finish-cache quiet _ _ ∙ after-cache quiet reply),
          )
    | inr (e, h) ↦
        rw (h, quiet-err quiet e h (λ same. alive (rw (h, same) refl)))
          (
            finish-quiet quiet _ _,
            finish-Settled env report_result handlers is_report id _ _ tried.1 tried-HasRow,
            finish-cache quiet _ _ ∙ rw (tried-err e h) begun-cache,
          )
  ]

  finish-raises :
      (reply : Reply) (message : String)
      → ((generation : ℕ) (b : Agent W)
          → (report_result id generation (outcome_of reply) b).0 ≡ err (other message))
      → (finish env report_result id command.placement_generation
          (outcome_of reply)
          (after_handler reply)).0
        ≡ err (other message)
  unfolding finish
  finish-raises reply message raises = raises command.placement_generation _

  -- If the registered handler of a command returns a reply, and the report of that reply's
  -- outcome raises, taking no result back, then the command's row holds HANDLER_EXCEPTION with
  -- the text of the report's exception in the end, also where the reply was a success.
  pub execute-report_raises :
      (reply : Reply) (message : String)
      → (handler command a.world).0 ≡ ok reply
      → ((generation : ℕ) (b : Agent W)
          → (report_result id generation (outcome_of reply) b).0 ≡ err (other message))
      → Settled id
          (failed_with "HANDLER_EXCEPTION" (take_chars 1000 message))
          (execute env report_result handlers id command a).1.journal
  unfolding exc_text
  execute-report_raises reply message h raises =
      rescued-Settled (other message)
        (rw (tried-finish reply h) (finish-raises reply message raises)) (λ e. cc)
