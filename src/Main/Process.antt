-- ===== src/Main/Process.antt =====
-- device_agent/main.py as a program: what its imports do before `asyncio.run(run())`.
pub mod Lives
use browseterm_device_agent.Prelude.{
  ℕ, String, ◌≡◌, refl, ap, sym, ◌∙◌, Option, none, some, List, arith, inl, inr, Option-cases,
}
use browseterm_device_agent.Effects.{Result, ok, err, Result-cases}
use browseterm_device_agent.Config.{Environment, Config, getenv, config_of, load}
use browseterm_device_agent.Config.Numbers.{Unicode}
use browseterm_device_agent.Config.Loaded.{load-config_of}
use browseterm_device_agent.Clients.K8sSecrets.{construct}
use browseterm_device_agent.Control.Connection.Loop.{Round}
use browseterm_device_agent.State.Journal.{JournalEntry}
use browseterm_device_agent.State.Journal.Progress.{Keeps}
use browseterm_device_agent.State.Journal.Schema.{Table, stored}
use browseterm_device_agent.Observability.Logging.{Root, configure_logging}
use browseterm_device_agent.Main.Once.{Finished}
use browseterm_device_agent.Main.Startup.{Host}
use browseterm_device_agent.Main.Run.{Shell, Left, leave, value_error, failed, run}
use browseterm_device_agent.Main.Run.Kept.{run-Keeps}

-- `COMMAND_JOURNAL_PATH`
abbrev pub journal_path : Environment → String
journal_path e = getenv e "COMMAND_JOURNAL_PATH" "/var/lib/browseterm/device-agent/journal.sqlite3"

-- `logging.INFO`
abbrev info : ℕ
info = 20

module _ {W : Type 0} (host : Host W) (shell : Shell W) (disk : (path : String) → Table)
    (rs : List (Round W)) where
  -- The import of k8s_secrets.py makes its reader, and then `run`.
  unfoldable pub start_with : Config → W → Left W
  unfolding construct run
  start_with c w =
      let (r, s) = construct host.kubernetes none w in
      elim r [
        | ok done ↦ run host c shell rs (disk c.command_journal_path) s
        | err x ↦ leave (failed x) (stored (disk c.command_journal_path)) s.1
      ]

  -- The import of config.py comes first, and touches nothing if it raises.
  unfoldable pub start_process : Unicode → Environment → W → Left W
  unfolding load start_with
  start_process u e w = elim (load u e) [
    | none ↦ leave value_error (stored (disk (journal_path e))) w
    | some c ↦ start_with c w
  ]

  -- The root logger is configured before anything else; `handler` is the number of its new handler.
  unfoldable pub main : Unicode → Environment → (handler : ℕ) → Root → W → Root × Left W
  unfolding configure_logging start_process
  main u e handler root w =
      (configure_logging "browseterm-device-agent" info handler root, start_process u e w)

  module _ (entry : JournalEntry) where
    start_with-Keeps :
        (c : Config) (w : W)
        → Finished entry (stored (disk c.command_journal_path))
        → Keeps entry (start_with c w).disk
    unfolding start_with
    start_with-Keeps c w f = elim (Result-cases (construct host.kubernetes none w).0) [
      | inl (done, r) ↦ rw (start_with, r) (run-Keeps host c shell entry rs _ _ f)
      | inr (x, r) ↦ rw (start_with, r) f.keeps
    ]

    loaded-Keeps :
        (u : Unicode) (e : Environment) (c : Config) (w : W)
        → load u e ≡ some c
        → Finished entry (stored (disk (journal_path e)))
        → Keeps entry (start_with c w).disk
    loaded-Keeps u e c w h f =
        let (n, r, same) = load-config_of u e c h in start_with-Keeps c w (rw same f)

    -- Whatever the environment variables are.
    pub start_process-Keeps :
        (u : Unicode) (e : Environment) (w : W)
        → Finished entry (stored (disk (journal_path e)))
        → Keeps entry (start_process u e w).disk
    unfolding start_process
    start_process-Keeps u e w f = elim (Option-cases (load u e)) [
      | inl absent ↦ rw (start_process, absent) f.keeps
      | inr (c, h) ↦ rw (start_process, h) (loaded-Keeps u e c w h f)
    ]
