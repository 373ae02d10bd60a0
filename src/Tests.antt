-- ===== src/Tests.antt =====
-- Runs of the model on concrete clusters, pollers and paths.
mod Memory
mod Cluster
mod Twice
mod Writes
mod DeepCopies
mod Home
mod Objects
mod Templates
mod Reconciled
mod Live
mod Polling
mod Watching
mod Controllers
mod Tokens
mod Operator
mod Deleting
mod Clients
mod Startup
mod Part
mod Secrets
mod SecretTick
mod Collector
