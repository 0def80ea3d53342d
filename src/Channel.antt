-- ===== src/Channel.antt =====
-- The gRPC channels that the agent opens, by what it gives to gRPC.
use browseterm_device_agent.Prelude.{ℕ, suc, String, ◌<>◌, Option, List}
use browseterm_device_agent.Text.{show}
use browseterm_device_agent.Json.{ℤ, pos, negsuc}

-- `str(n)`
unfoldable pub show_int : ℤ → String
unfolding show
show_int (pos n) = show n
show_int (negsuc n) = "-" <> show (suc n)

-- `f"{host}:{port}"`
abbrev pub target : (host : String) (port : ℤ) → String
target host port = host <> (":" <> show_int port)

-- The arguments of `grpc.ssl_channel_credentials`; without roots gRPC takes its own.
pub record Credentials : Type 0 where
  pub root_certificates : Option (List ℕ)
  pub private_key : Option (List ℕ)
  pub certificate_chain : Option (List ℕ)

pub data Channel : Type 0 where
  secure_channel : (target : String) → Credentials → Channel
  insecure_channel : (target : String) → Channel
