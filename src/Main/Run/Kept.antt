-- ===== src/Main/Run/Kept.antt =====
-- A run of device_agent/main.py keeps what the journal's file says of a finished command.
use browseterm_device_agent.Prelude.{false, List}
use browseterm_device_agent.Config.{Config}
use browseterm_device_agent.Effects.{Result, ok, err}
use browseterm_device_agent.State.Journal.{Journal, JournalEntry}
use browseterm_device_agent.State.Journal.Progress.{Keeps}
use browseterm_device_agent.State.Journal.Schema.{
  Table, init_schema, entries, stored, entries-init_schema,
}
use browseterm_device_agent.Control.Connection.Loop.{
  Round, Exit, returned, cancelled_error, hanging, going,
}
use browseterm_device_agent.Main.Once.{Finished, Reach-Keeps}
use browseterm_device_agent.Main.Reaches.{run_forever-Reach}
use browseterm_device_agent.Main.Session.{restarted}
use browseterm_device_agent.Main.Startup.{
  Host, Start, ready, system_exit, secret_error, raised, Certificates, build_container_maker_client,
}
use browseterm_device_agent.Main.Run.{
  Shell, Starting, DeviceFiles, Left, ProcessEnd, when_ok, close_all, close_then, leave_loop,
  give_up, identify, env_of, hello_of, local_api_address, serve, run,
}
use browseterm_device_agent.Agent.{Agent}

module _ {W : Type 0} (host : Host W) (c : Config) (shell : Shell W) (e : JournalEntry) where
  when_ok-Keeps :
      (r : Result (Unit {0}) × W) (t : Journal) (f : W → Left W)
      → Keeps e t
      → ((w : W) → Keeps e (f w).disk)
      → Keeps e (when_ok r t f).disk
  when_ok-Keeps (ok done, w) t f k h = h w
  when_ok-Keeps (err x, w) t f k h = k

  close_then-Keeps :
      (o : ProcessEnd) (a : Agent W)
      → Keeps e a.journal
      → Keeps e (close_then host c shell o a).disk
  close_then-Keeps o a k = when_ok-Keeps (close_all host c shell a.world) a.journal _ k (λ w. k)

  leave_loop-Keeps :
      (x : Exit) (a : Agent W) → Keeps e a.journal → Keeps e (leave_loop host c shell x a).disk
  leave_loop-Keeps returned a k = close_then-Keeps _ a k
  leave_loop-Keeps cancelled_error a k = close_then-Keeps _ a k
  leave_loop-Keeps hanging a k = k
  leave_loop-Keeps going a k = k

  serve-Keeps :
      (files : DeviceFiles) (certificates : Certificates) (rs : List (Round W)) (t : Journal)
      (w : W)
      → Finished e t
      → Keeps e (serve host c shell files certificates rs t w).disk
  unfolding serve
  serve-Keeps files certificates rs t w f =
      let env = env_of c shell files certificates in
      when_ok-Keeps (shell.start_server (local_api_address c) w) t _ f.keeps λ v.
        leave_loop-Keeps _ _ (
          Reach-Keeps env e
            (run_forever-Reach env (hello_of c shell files) false rs (restarted t v)) f)

  give_up-Keeps :
      {A : Type 0} (r : Start A) (t : Journal) (w : W) (f : A → Left W)
      → Keeps e t
      → ((a : A) → Keeps e (f a).disk)
      → Keeps e (give_up host c shell r t w f).disk
  give_up-Keeps (ready a) t w f k h = h a
  give_up-Keeps (system_exit n) t w f k h = k
  give_up-Keeps (secret_error a) t w f k h = k
  give_up-Keeps (raised x) t w f k h = k

  -- Whether the start fails, the server does not start, or the loop is left or goes on, and whatever
  -- comes over the connections: if the file of the journal, of whatever version, has a terminal
  -- result for a command, then it has the same result after the run.
  pub run-Keeps :
      (rs : List (Round W)) (file : Table) (s : Starting W)
      → Finished e (stored file)
      → Keeps e (run host c shell rs file s).disk
  unfolding run
  run-Keeps rs file s f = give_up-Keeps (identify host c s).0 (stored file) _ _ f.keeps λ device.
      (let opened : Finished e (entries (init_schema file)) = rw (entries-init_schema file) f in
        give_up-Keeps (build_container_maker_client host c (identify host c s).1).0 _ _ _
          opened.keeps λ known. serve-Keeps device known rs _ _ opened)
