-- ===== src/Tests/State.antt =====
-- The theorems on device_agent/state at concrete inputs.
use mathlib.Core.List.{Perm}
use browseterm_device_agent.State.Journal.{select_unreported, unreported_terminal_entries}
use browseterm_device_agent.State.Journal.Outbox.{IsOrdered, unreported-IsOrdered}
use browseterm_device_agent.Tests.World.{rows}

unreported-IsOrdered_example :
    IsOrdered (unreported_terminal_entries rows)
    × Perm (unreported_terminal_entries rows) (select_unreported rows)
unreported-IsOrdered_example = unreported-IsOrdered rows
