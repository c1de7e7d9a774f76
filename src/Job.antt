-- ===== src/Job.antt =====
-- src/reconcile/job.rs: the state machine of a job run. The children hold its parts: `Records` the
-- statements on the tables, `Spec` what is read from a job's spec, `Volumes`, `Servers`, `Firewall`
-- and `Containers` the handlers of the states, `Advance` the pass over all jobs.
pub mod Records
pub mod Spec
pub mod Volumes
pub mod Servers
pub mod Firewall
pub mod Containers
pub mod Advance
pub mod DryRun
