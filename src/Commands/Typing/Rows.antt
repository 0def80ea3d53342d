-- ===== src/Commands/Typing/Rows.antt =====
-- The rows of the journal with a typed result, and what the journal's statements make of them.
use browseterm_device_agent.Prelude.{
  ℕ, String, ◌≡◌, refl, false, Option, none, some, [], ◌∷◌, All, All-append, inl, inr, Bool-cases,
  ◌==◌,
}
use browseterm_device_agent.Json.{Json}
use browseterm_device_agent.State.Journal.{
  Journal, JournalEntry, CommandStatus, succeeded, failed, is_terminal, Outcome, update, has_seen,
  record_accepted, update_status, record_running, record_result, mark_reported,
}
use browseterm_device_agent.Commands.Env.{Operation, Reply}
use browseterm_device_agent.Commands.Executor.{outcome_of}
use browseterm_device_agent.Commands.Typing.{HasType, result_type, IsReply, succeeds, fails}

-- A success has a result of the type of an operation, and a failure an error code and no result.
pub data IsTyped : CommandStatus → Option Json → Option String → Type 0 where
  unfinished :
      {status : CommandStatus} {result : Option Json} {error_code : Option String}
      → is_terminal status ≡ false
      → IsTyped status result error_code
  success :
      {j : Json} (operation : Operation)
      → HasType j (result_type operation)
      → IsTyped succeeded (some j) none
  failure : {code : String} → IsTyped failed none (some code)

abbrev pub OutcomeIsTyped : Outcome → Type 0
OutcomeIsTyped o = IsTyped o.status o.result o.error_code

abbrev pub RowIsTyped : JournalEntry → Type 0
RowIsTyped e = IsTyped e.status e.result_json e.error_code

abbrev pub AllTyped : Journal → Type 0
AllTyped = All RowIsTyped

pub outcome_of-IsTyped :
    (operation : Operation) {reply : Reply}
    → IsReply operation reply
    → OutcomeIsTyped (outcome_of reply)
unfolding outcome_of
outcome_of-IsTyped operation (succeeds h) = success operation h
outcome_of-IsTyped operation (fails h) = failure

update-AllTyped :
    (id : String) (f : JournalEntry → JournalEntry) (t : Journal)
    → ((e : JournalEntry) → RowIsTyped e → RowIsTyped (f e))
    → AllTyped t
    → AllTyped (update id f t)
unfolding update
update-AllTyped id f [] h a = tt
update-AllTyped id f (e ∷ t) h a = (
  elim (Bool-cases (e.command_id == id)) [ inl own ↦ rw own (h e a.0) | inr other ↦ rw other a.0 ],
  update-AllTyped id f t h a.1,
)

pub record_accepted-AllTyped :
    (now : ℕ) (id operation : String) (generation : ℕ) (t : Journal)
    → AllTyped t
    → AllTyped (record_accepted now id operation generation t)
unfolding record_accepted
record_accepted-AllTyped now id operation generation t a = elim (Bool-cases (has_seen id t)) [
  | inl seen ↦ rw seen a
  | inr new ↦ rw new (All-append RowIsTyped t _ a (unfinished refl, tt))
]

pub record_running-AllTyped :
    (now : ℕ) (id : String) (t : Journal) → AllTyped t → AllTyped (record_running now id t)
unfolding record_running update_status
record_running-AllTyped now id t = update-AllTyped id _ t (λ e h. unfinished refl)

pub record_result-AllTyped :
    (now : ℕ) (id : String) (o : Outcome) (t : Journal)
    → OutcomeIsTyped o
    → AllTyped t
    → AllTyped (record_result now id o t)
unfolding record_result
record_result-AllTyped now id o t q = update-AllTyped id _ t (λ e h. q)

pub mark_reported-AllTyped :
    (now : ℕ) (id : String) (t : Journal) → AllTyped t → AllTyped (mark_reported now id t)
unfolding mark_reported
mark_reported-AllTyped now id t = update-AllTyped id _ t (λ e h. h)
