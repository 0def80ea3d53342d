-- ===== src/Main/Process/Lives.antt =====
-- The processes of device_agent/main.py one after the other: a supervisor starts it again whenever it
-- has ended, and what it keeps is on the disk.
use browseterm_device_agent.Prelude.{
  String, List, [], ◌∷◌, ◌==◌, inl, inr, Bool-cases, eq_iff, if◌then◌else◌,
}
use browseterm_device_agent.Config.{Environment}
use browseterm_device_agent.Config.Numbers.{Unicode}
use browseterm_device_agent.Control.Connection.Loop.{Round}
use browseterm_device_agent.State.Journal.{JournalEntry}
use browseterm_device_agent.State.Journal.Progress.{Keeps}
use browseterm_device_agent.State.Journal.Schema.{Table, stored, written, stored-written}
use browseterm_device_agent.Main.Once.{Finished}
use browseterm_device_agent.Main.Startup.{Host}
use browseterm_device_agent.Main.Run.{Shell}
use browseterm_device_agent.Main.Process.{journal_path, start_process, start_process-Keeps}

-- One process: its environment, what it can call, how its connections go, and the world at its start.
-- It may end, or be killed while the loop goes on.
pub record Life (W : Type 0) : Type 0 where
  pub unicode : Unicode
  pub environment : Environment
  pub host : Host W
  pub shell : Shell W
  pub rounds : List (Round W)
  pub world : W

-- The journals by their paths.
abbrev pub Disk : Type 0
Disk = (path : String) → Table

module _ {W : Type 0} where
  -- A file is known by the rows that it holds.
  unfoldable pub live : Life W → Disk → Disk
  unfolding start_process
  live l disk path =
      if path == journal_path l.environment
      then written (start_process l.host l.shell disk l.rounds l.unicode l.environment l.world).disk
      else disk path

  unfoldable pub live_all : List (Life W) → Disk → Disk
  unfolding live
  live_all [] disk = disk
  live_all (l ∷ ls) disk = live_all ls (live l disk)

  live-Finished :
      (entry : JournalEntry) (path : String) (l : Life W) (disk : Disk)
      → Finished entry (stored (disk path))
      → Finished entry (stored (live l disk path))
  unfolding live
  live-Finished entry path l disk f = elim (Bool-cases (path == journal_path l.environment)) [
    | inr other ↦ rw (live, other) f
    | inl own ↦
        let at_path = (rw ((eq_iff path (journal_path l.environment)).0 own) at f) in
        rw (live, own, stored-written)
          (record {
            terminal = f.terminal;
            keeps =
                start_process-Keeps l.host l.shell disk l.rounds entry l.unicode l.environment
                  l.world at_path;
          })
  ]

  -- Over any number of processes, one after the other, each with its own environment, its own
  -- connections and whatever fails in it: if the file of a journal, of whatever version, has a
  -- terminal result for a command, then it has the same result after them all.
  pub live_all-Keeps :
      (entry : JournalEntry) (path : String) (ls : List (Life W)) (disk : Disk)
      → Finished entry (stored (disk path))
      → Keeps entry (stored (live_all ls disk path))
  unfolding live_all
  live_all-Keeps entry path [] disk f = f.keeps
  live_all-Keeps entry path (l ∷ ls) disk f =
      live_all-Keeps entry path ls (live l disk) (live-Finished entry path l disk f)
