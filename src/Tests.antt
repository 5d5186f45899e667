-- ===== src/Tests.antt =====
-- Runs of the code on concrete inputs, and each theorem at an input that meets its hypotheses.
mod World
mod Texts
mod Setup
mod Matcher
pub mod Parse
pub mod Blocklist
pub mod Race
mod Directives
pub mod Peercache
mod Contest
pub mod Listener
mod Loadgen
mod RaceSetup
mod Lifecycle
mod Discovery
mod PeercacheLifecycle
mod Buildinfo
mod LoadgenRun
mod Replicas
mod Chain
