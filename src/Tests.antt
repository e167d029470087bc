-- ===== src/Tests.antt =====
-- Tests of the models, and an instance of each theorem that has hypotheses.
mod Flash
mod Networks
mod Uris
mod Documents
mod Variables
mod Provisioning
mod Connections
mod Lifecycle
mod Names
mod Web
mod Sessions
mod Links
mod Hosts
mod Pages
