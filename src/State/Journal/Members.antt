-- ===== src/State/Journal/Members.antt =====
-- What holds of every row of state/command_journal.py's table holds of every row that is resent.
use browseterm_device_agent.Prelude.{true, ◌≡◌, [], ◌∷◌, All, arith, inl, inr, Bool-cases, leb}
use browseterm_device_agent.State.Journal.{
  Journal, JournalEntry, is_terminal, is_unreported, insert_by_time, order_by_time,
  select_unreported, unreported_terminal_entries,
}

abbrev pub IsTerminal : JournalEntry → Type 0
IsTerminal e = is_terminal e.status ≡ true

module _ (P : JournalEntry → Type 0) where
  pub insert_by_time-All :
      (e : JournalEntry) (t : Journal) → P e → All P t → All P (insert_by_time e t)
  unfolding insert_by_time
  insert_by_time-All e [] h a = (h, tt)
  insert_by_time-All e (x ∷ t) h a = elim (Bool-cases (leb e.created_at x.created_at)) [
    | inl before ↦ rw before (h, a)
    | inr after ↦ rw after (a.0, insert_by_time-All e t h a.1)
  ]

  order_by_time-All : (t : Journal) → All P t → All P (order_by_time t)
  unfolding order_by_time
  order_by_time-All [] a = tt
  order_by_time-All (e ∷ t) a = insert_by_time-All e (order_by_time t) a.0 (order_by_time-All t a.1)

  select_unreported-All : (t : Journal) → All P t → All P (select_unreported t)
  unfolding select_unreported
  select_unreported-All [] a = tt
  select_unreported-All (e ∷ t) a = elim (Bool-cases (is_unreported e)) [
    | inl sent ↦ rw sent (a.0, select_unreported-All t a.1)
    | inr kept ↦ rw kept (select_unreported-All t a.1)
  ]

  pub unreported-All : (t : Journal) → All P t → All P (unreported_terminal_entries t)
  unfolding unreported_terminal_entries
  unreported-All t a = order_by_time-All (select_unreported t) (select_unreported-All t a)

select_unreported-IsTerminal : (t : Journal) → All IsTerminal (select_unreported t)
unfolding select_unreported
select_unreported-IsTerminal [] = tt
select_unreported-IsTerminal (e ∷ t) = ground (arith, select_unreported-IsTerminal t)

pub unreported-IsTerminal : (t : Journal) → All IsTerminal (unreported_terminal_entries t)
unfolding unreported_terminal_entries
unreported-IsTerminal t =
    order_by_time-All IsTerminal (select_unreported t) (select_unreported-IsTerminal t)
