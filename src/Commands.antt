-- ===== src/Commands.antt =====
-- device_agent/commands: the handlers of the operations, and the executor that runs them.
pub mod Env
pub mod Name
pub mod Config
pub mod Create
pub mod Resume
pub mod Save
pub mod Delete
pub mod Hibernate
pub mod Executor
pub mod Ends
pub mod Typing
pub mod Placing
