-- ===== src/Commands/Executor/Queue.antt =====
-- commands/executor.py sends nothing over the stream: the outbound queue is as it was.
use browseterm_device_agent.Prelude.{ℕ, String, ◌≡◌, refl, ◌∙◌, arith, inl, inr, Option-cases}
use browseterm_device_agent.Effects.{Exc, stuck, Result-cases}
use browseterm_device_agent.State.Journal.{Outcome}
use browseterm_device_agent.Commands.Env.{ExecuteCommand, Env, Reply, Handler}
use browseterm_device_agent.Commands.Executor.{
  Handlers, Report, execute, attempt, recover, start, finish, place_if_succeeded,
}
use browseterm_device_agent.Commands.Executor.Rules.{
  attempt-ok, attempt-err, execute-ok, execute-err, execute-none,
}
use browseterm_device_agent.Agent.{Agent}

-- A report that puts nothing on the queue and keeps the ids that wait for an acknowledgement.
pub record IsSilent {W : Type 0} (report_result : Report W) : Type 0 where
  pub outbound :
      (id : String) (generation : ℕ) (o : Outcome) (a : Agent W)
      → (report_result id generation o a).1.outbound ≡ a.outbound

module _ {W : Type 0} (env : Env W) (report_result : Report W) (handlers : Handlers W)
    (silent : IsSilent report_result) (id : String) (command : ExecuteCommand) where
  outbound-finish :
      (generation : ℕ) (o : Outcome) (a : Agent W)
      → (finish env report_result id generation o a).1.outbound ≡ a.outbound
  unfolding finish
  outbound-finish generation o a = silent.outbound id generation o _

  outbound-place :
      (reply : Reply) (a : Agent W) → (place_if_succeeded command reply a).outbound ≡ a.outbound
  unfolding place_if_succeeded
  outbound-place reply a = ground arith

  outbound-attempt :
      (handler : Handler W) (a : Agent W)
      → (attempt env report_result id command handler a).1.outbound ≡ a.outbound
  outbound-attempt handler a = elim (Result-cases (handler command a.world).0) [
    | inl (reply, e) ↦
        rw (attempt-ok env report_result handlers id command handler a reply e)
          (outbound-finish _ _ _ ∙ outbound-place reply _)
    | inr (x, e) ↦ rw (attempt-err env report_result handlers id command handler a x e) refl
  ]

  outbound-recover :
      (e : Exc) (a : Agent W) → (recover env report_result id command e a).1.outbound ≡ a.outbound
  unfolding recover
  outbound-recover stuck a = refl
  outbound-recover _ a = outbound-finish _ _ a

  outbound-start : (a : Agent W) → (start env id command a).outbound ≡ a.outbound
  unfolding start
  outbound-start a = refl

  pub outbound-execute :
      (a : Agent W) → (execute env report_result handlers id command a).1.outbound ≡ a.outbound
  outbound-execute a = elim (Option-cases (handlers command.operation)) [
    | inl absent ↦
        rw (execute-none env report_result handlers id command a absent) (outbound-finish _ _ a)
    | inr (handler, registered) ↦
        let begun = start env id command a in
        elim (Result-cases (attempt env report_result id command handler begun).0) [
          | inl (done, e) ↦
              rw (execute-ok env report_result handlers id command a handler registered e)
                (outbound-attempt handler begun ∙ outbound-start a)
          | inr (x, e) ↦
              rw (execute-err env report_result handlers id command a handler x registered e)
                (outbound-recover x _ ∙ outbound-attempt handler begun ∙ outbound-start a)
        ]
  ]
