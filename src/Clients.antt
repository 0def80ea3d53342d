-- ===== src/Clients.antt =====
-- device_agent/clients: the retry helper, the Container Maker client, the Cloud client and the reader
-- of the Kubernetes secrets.
pub mod Retry
pub mod Maker
pub mod Cloud
pub mod K8sSecrets
