-- ===== src/Clients/Maker/Channel.antt =====
-- The channel of clients/container_maker_client.py, which its constructor opens.
use browseterm_device_agent.Prelude.{ℕ, String, some, List}
use browseterm_device_agent.Json.{ℤ}
use browseterm_device_agent.Channel.{Channel, secure_channel, target}

abbrev pub open_channel :
    (host : String) (port : ℤ) (client_key client_cert ca_cert : List ℕ) → Channel
open_channel host port client_key client_cert ca_cert = secure_channel (target host port) (record {
  root_certificates = some ca_cert;
  private_key = some client_key;
  certificate_chain = some client_cert;
})
