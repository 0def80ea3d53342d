-- ===== src/Observability/Logging/Handlers.antt =====
-- The handlers of the root logger after observability/logging_setup.py has configured it.
use browseterm_device_agent.Prelude.{ℕ, String, ◌≡◌, refl, some, List, [], ◌∷◌, arith}
use browseterm_device_agent.Observability.Logging.{
  LogHandler, Root, remove_handler, remove_all, configure_logging,
}

remove_handler-first : (h : LogHandler) (hs : List LogHandler) → remove_handler h (h ∷ hs) ≡ hs
unfolding remove_handler
remove_handler-first h hs = ground arith

remove_all-nil : (hs : List LogHandler) → remove_all hs hs ≡ []
unfolding remove_all
remove_all-nil [] = refl
remove_all-nil (h ∷ hs) = rw (remove_handler-first h hs) (remove_all-nil hs)

-- However often logging is configured, the root logger has one handler, that of the last time.
pub configure_logging-one :
    (service : String) (level handler : ℕ) (root : Root)
    → configure_logging service level handler root ≡ record {
      level = level;
      handlers = (record { number = handler; service = some service }) ∷ [];
    }
unfolding configure_logging
configure_logging-one service level handler root = rw (remove_all-nil root.handlers) refl
