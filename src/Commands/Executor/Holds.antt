-- ===== src/Commands/Executor/Holds.antt =====
-- What commands/executor.py leaves in the journal and in the placement cache, said without its own
-- functions: by the columns of the command's row, and by what is found for each container.
use browseterm_device_agent.Prelude.{
  ℕ, String, ◌≡◌, ◌≢◌, refl, sym, ◌∙◌, Option, none, some, inl, inr, ◌==◌, Option-cases,
  if◌then◌else◌,
}
use browseterm_device_agent.Text.{take_chars}
use browseterm_device_agent.Json.{plain}
use browseterm_device_agent.Effects.{Result, ok, err, stuck}
use browseterm_device_agent.State.Journal as Journal
use browseterm_device_agent.State.Journal.{Journal, JournalEntry, Outcome, succeeded, failed}
use browseterm_device_agent.State.Placement as Placement
use browseterm_device_agent.State.Placement.{
  PlacementCache, record_placement, forget, get-record_placement, get-forget,
}
use browseterm_device_agent.Commands.Env.{
  Operation, create, delete, hibernate, resume, reconcile, save, other_operation, ExecuteCommand,
  Env, Reply, Handler,
}
use browseterm_device_agent.Commands.Executor.{
  Handlers, Report, execute, outcome_of, exc_text, update_placement,
}
use browseterm_device_agent.Commands.Executor.Rules.{IsReport, Settled}
use browseterm_device_agent.Commands.Executor.Settles.{recorded, placed, execute-Settled}
use browseterm_device_agent.Agent.{Agent}

-- The columns of a row that hold a reply with this error code, or an exception.
abbrev pub SaysReply : (error_code : Option String) → Reply → JournalEntry → Type 0
SaysReply none reply row =
    (row.status ≡ succeeded)
    × (row.result_json ≡ reply.result)
    × (row.error_code ≡ none)
    × (row.error_message ≡ none)
SaysReply (some code) reply row =
    (row.status ≡ failed)
    × (row.result_json ≡ none)
    × (row.error_code ≡ some code)
    × (row.error_message ≡ reply.error_message)

abbrev pub Says : Result Reply → JournalEntry → Type 0
Says (ok reply) row = SaysReply reply.error_code reply row
Says (err e) row =
    (row.status ≡ failed)
    × (row.result_json ≡ none)
    × (row.error_code ≡ some "HANDLER_EXCEPTION")
    × (row.error_message ≡ some (plain (take_chars 1000 (exc_text e))))

pub record Holds (id : String) (r : Result Reply) (t : Journal) : Type 0 where
  pub row : JournalEntry
  pub found : Journal.get id t ≡ some row
  pub says : Says r row

-- What the cache has for `k` after a success of the command: the command's placement, if it has
-- placed that container, and nothing, if it has removed it. The empty id is no container.
abbrev found_put : ExecuteCommand → (k : String) → PlacementCache → Option (String × ℕ)
found_put command k cache =
    if command.container_id == ""
    then Placement.get k cache
    else if command.container_id == k
    then some (command.device_id, command.placement_generation)
    else Placement.get k cache

abbrev found_removed : ExecuteCommand → (k : String) → PlacementCache → Option (String × ℕ)
found_removed command k cache = if command.container_id == k then none else Placement.get k cache

abbrev found_after : ExecuteCommand → (k : String) → PlacementCache → Option (String × ℕ)
found_after command k cache = elim command.operation [
  | create ↦ found_put command k cache
  | resume ↦ found_put command k cache
  | delete ↦ found_removed command k cache
  | hibernate ↦ found_removed command k cache
  | reconcile ↦ Placement.get k cache
  | save ↦ Placement.get k cache
  | other_operation n ↦ Placement.get k cache
]

abbrev after_result :
    ExecuteCommand → Result Reply → (k : String) → PlacementCache → Option (String × ℕ)
after_result command (ok reply) k cache = elim reply.error_code [
  | none ↦ found_after command k cache
  | some code ↦ Placement.get k cache
]
after_result command (err e) k cache = Placement.get k cache

-- The cache after the command: where there is none, none, and else one in which each container is
-- found as the result has it.
abbrev pub IsPlaced :
    ExecuteCommand → Result Reply → (before after : Option PlacementCache) → Type 0
IsPlaced command r none after = after ≡ none
IsPlaced command r (some cache) after =
    (new : PlacementCache) × ((after ≡ some new)
      × ((k : String) → Placement.get k new ≡ after_result command r k cache))

recorded-Says :
    (id : String) (r : Result Reply) (t : Journal) → Settled id (recorded r) t → Holds id r t
unfolding outcome_of
recorded-Says id (err e) t s = record {
  row = s.row;
  found = s.found;
  says = (s.status, s.result, s.error_code, s.error_message);
}
recorded-Says id (ok reply) t s = record {
  row = s.row;
  found = s.found;
  says = elim (Option-cases reply.error_code) [
    | inl e ↦
        rw e (rw e at s.status, rw e at s.result, rw e at s.error_code, rw e at s.error_message)
    | inr (code, e) ↦
        rw e (rw e at s.status, rw e at s.result, rw e at s.error_code, rw e at s.error_message)
  ];
}

module _ (command : ExecuteCommand) (cache : PlacementCache) where
  abbrev Updated : Type 0
  Updated =
      (new : PlacementCache) × ((update_placement command (some cache) ≡ some new)
        × ((k : String) → Placement.get k new ≡ found_after command k cache))

  put-Updated :
      update_placement command (some cache)
        ≡ some (
            record_placement command.container_id command.device_id command.placement_generation
              cache)
      → ((k : String) → found_after command k cache ≡ found_put command k cache)
      → Updated
  put-Updated e f = (
    _,
    (e, λ k. get-record_placement command.container_id command.device_id k _ cache ∙ sym (f k)),
  )

  removed-Updated :
      update_placement command (some cache) ≡ some (forget command.container_id cache)
      → ((k : String) → found_after command k cache ≡ found_removed command k cache)
      → Updated
  removed-Updated e f = (_, (e, λ k. get-forget command.container_id k cache ∙ sym (f k)))

  update_placement-Updated : (operation : Operation) → command.operation ≡ operation → Updated
  unfolding update_placement
  update_placement-Updated create e = put-Updated (rw e refl) (λ k. rw e refl)
  update_placement-Updated resume e = put-Updated (rw e refl) (λ k. rw e refl)
  update_placement-Updated delete e = removed-Updated (rw e refl) (λ k. rw e refl)
  update_placement-Updated hibernate e = removed-Updated (rw e refl) (λ k. rw e refl)
  update_placement-Updated reconcile e = (cache, (rw e refl, λ k. rw e refl))
  update_placement-Updated save e = (cache, (rw e refl, λ k. rw e refl))
  update_placement-Updated (other_operation n) e = (cache, (rw e refl, λ k. rw e refl))

placed-IsPlaced :
    (command : ExecuteCommand) (r : Result Reply) (before : Option PlacementCache)
    → IsPlaced command r before (placed command r before)
placed-IsPlaced command (err e) none = refl
placed-IsPlaced command (err e) (some cache) = (cache, (refl, λ k. refl))
placed-IsPlaced command (ok reply) none = elim (Option-cases reply.error_code) [
  | inl e ↦ rw e (unfold update_placement in refl)
  | inr (code, e) ↦ rw e refl
]
placed-IsPlaced command (ok reply) (some cache) = elim (Option-cases reply.error_code) [
  | inl e ↦ rw e (update_placement-Updated command cache command.operation refl)
  | inr (code, e) ↦ rw e (cache, (refl, λ k. refl))
]

module _ {W : Type 0} (env : Env W) (report_result : Report W) (handlers : Handlers W)
    (is_report : IsReport report_result) (id : String) (command : ExecuteCommand) (a : Agent W)
    (handler : Handler W) (registered : handlers command.operation ≡ some handler) where
  -- If a handler is registered for the command and does not hang, and the report returns and
  -- takes no result back, then the execution returns. The command's row then says: succeeded,
  -- with the reply's result and no error, if the reply has no error code; failed, with the
  -- reply's error and no result, if it has one; and failed, with HANDLER_EXCEPTION and the
  -- exception's text, if the handler raised. In the placement cache a container that the command
  -- has placed has the command's device and generation, one that it has removed is gone, and
  -- every other one, and after a failure every one, is as before.
  pub execute-Holds :
      ((generation : ℕ) (o : Outcome) (b : Agent W) → (report_result id generation o b).0 ≡ ok tt)
      → (handler command a.world).0 ≢ err stuck
      → let r = (handler command a.world).0 in
        let (returned, b) = execute env report_result handlers id command a in
        (returned ≡ ok tt)
        × Holds id r b.journal
        × IsPlaced command r a.placement_cache b.placement_cache
  execute-Holds quiet alive =
      let (returned, settled, cache) =
        execute-Settled env report_result handlers is_report id command a handler registered quiet
          alive in
      (
        returned,
        recorded-Says id _ _ settled,
        rw cache (placed-IsPlaced command _ a.placement_cache),
      )
