-- ===== src/Job/Containers/Answers.antt =====
-- The statuses that `handle_container_running` answers.
use kube_shim.Prelude.{Bool, true, false, Option, none, some, String, if◌then◌else◌}
use kube_shim.Prelude.Int.{ℤ}
use kube_shim.Status.{Status, succeeded, failed}
use kube_shim.Program.Yields.{Yields, yields_rules}
use kube_shim.Context.{JobContext}
use kube_shim.Job.Containers.{
  never_started, still_running, finished, watch, handle_container_running,
}

-- to stay, or one of the two outcomes
pub data Outcome : Option Status → Type 0 where
  stays : Outcome none
  succeeds : Outcome (some succeeded)
  fails : Outcome (some failed)

Outcome-of : (b : Bool) → Outcome (some (if b then succeeded else failed))
Outcome-of true = succeeds
Outcome-of false = fails

module _ {C V F : Type 0} (ctx : JobContext C V F) (job_id : String) where
  Yields-never_started :
      (ip : String) (now : ℤ) (started : Bool)
      → Yields Outcome (never_started ctx job_id ip now started)
  unfolding never_started
  Yields-never_started ip now started = search (yields_rules, stays)

  Yields-still_running :
      (ip : String) (created_at : ℤ) (last : Option ℤ)
      → Yields Outcome (still_running ctx job_id ip created_at last)
  unfolding still_running
  Yields-still_running ip created_at last = search (yields_rules, stays, Yields-never_started)

  Yields-finished :
      (ip spec_str : String) (created_at code : ℤ)
      → Yields Outcome (finished ctx job_id ip spec_str created_at code)
  unfolding finished
  Yields-finished ip spec_str created_at code = search (yields_rules, Outcome-of) depth 16

  Yields-watch :
      (ip spec_str : String) (created_at : ℤ) (last : Option ℤ)
      → Yields Outcome (watch ctx job_id ip spec_str created_at last)
  unfolding watch
  Yields-watch ip spec_str created_at last =
      search (yields_rules, stays, Yields-still_running, Yields-finished)

  pub Yields-handle_container_running :
      (spec_str : String) (created_at : ℤ) (last : Option ℤ)
      → Yields Outcome (handle_container_running ctx job_id spec_str created_at last)
  unfolding handle_container_running
  Yields-handle_container_running spec_str created_at last =
      search (yields_rules, succeeds, Yields-watch) depth 7
