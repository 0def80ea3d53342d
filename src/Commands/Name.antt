-- ===== src/Commands/Name.antt =====
-- commands/_util.py
pub mod Suffix
use browseterm_device_agent.Prelude.{ℕ, String, Bool, ◌||◌, ◌&&◌, leb, ◌==◌, length, if◌then◌else◌}
use browseterm_device_agent.Text.{split, join, get_last, drop_last, is_digit}
use browseterm_device_agent.Commands.Env.{
  Operation, create, delete, hibernate, resume, reconcile, save, other_operation,
}

unfoldable pub operation_name : Operation → String
operation_name create = "Create"
operation_name delete = "Delete"
operation_name hibernate = "Hibernate"
operation_name resume = "Resume"
operation_name reconcile = "Reconcile"
operation_name save = "Save"
operation_name (other_operation n) = "Unknown"

unfoldable pub strip_container_maker_suffix : (digit_beyond_ascii : ℕ → Bool) → String → String
unfolding split join
strip_container_maker_suffix digit_beyond_ascii container_name =
    let parts = split container_name in
    let last = get_last parts in
    if leb 2 (length parts) && is_digit digit_beyond_ascii last
    then join (drop_last (drop_last parts))
    else if leb 1 (length parts) && (last == "pod" || (last == "service" || last == "ingress"))
    then join (drop_last parts)
    else container_name
