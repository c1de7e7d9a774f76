-- ===== src/Tests/ApiRuns.antt =====
-- The theorems on the API and its tokens at concrete inputs.
use kube_shim.Tests.Setup.{Log, job, clock, world}
use kube_shim.Prelude.{◌≡◌, refl, ◌⊎◌, none, some, String, List, [], ◌∷◌}
use kube_shim.Prelude.Int.{ℤ, pos}
use kube_shim.Status.{Status, is_pre_completion_state}
use kube_shim.Http.{next, of_action}
use kube_shim.Program.{ok, query, execute}
use kube_shim.Program.NoFault.{NoFault}
use kube_shim.JobApi.{find_named, delete_job}
use kube_shim.JobApi.Deletion.{Stopped, Gone, delete_job-deletes}
use kube_shim.Auth.{
  ApiToken, handed_on, unauthorized, is_valid_at, presented_token, require_bearer_token, Carries,
  require_bearer_token_iff,
}

undisturbed : NoFault clock
undisturbed = record { never = λ c. refl }

running : find_named "ns" "job" (world Status.vm_creating).db ≡ some (job "j1" Status.vm_creating)
unfolding find_named
running = refl

delete_job-deletes_example :
    ((delete_job clock "ns" "job" (world Status.vm_creating)).0 ≡ ok 204)
    × (Stopped
          (job "j1" Status.vm_creating)
          (world Status.vm_creating).db
          (delete_job clock "ns" "job" (world Status.vm_creating)).1.db
        ⊎ Gone
            (job "j1" Status.vm_creating)
            (world Status.vm_creating).db
            (delete_job clock "ns" "job" (world Status.vm_creating)).1.db)
    × ((delete_job clock "ns" "job" (world Status.vm_creating)).1.db.job_volumes
        ≡ (world Status.vm_creating).db.job_volumes)
delete_job-deletes_example =
    delete_job-deletes clock undisturbed "ns" "job" (job "j1" Status.vm_creating)
      (world Status.vm_creating) running

-- A job that is cleaning up goes, while its volume stays recorded.
left_behind :
    ((delete_job clock "ns" "job" (world Status.volume_detaching)).1.db.jobs
      ≡ job "j2" Status.failed ∷ [])
    × ((delete_job clock "ns" "job" (world Status.volume_detaching)).1.db.job_volumes
        ≡ (world Status.volume_detaching).db.job_volumes)
unfolding delete_job next of_action query is_pre_completion_state execute
left_behind = (refl, refl)

abbrev tokens : List ApiToken
tokens =
    record { token = "old"; expires_at = some (pos 10) }
    ∷ record { token = "new"; expires_at = none }
    ∷ []

abbrev at_noon : Log → ℤ × Log
at_noon c = (pos 1000, c)

abbrev answer_page : Log → String × Log
answer_page c = ("page", c)

bearer : presented_token (some "Bearer new") ≡ some "new"
unfolding presented_token
bearer = refl

expired : (require_bearer_token at_noon answer_page tokens (some "Bearer old") []).0 ≡ unauthorized
unfolding require_bearer_token is_valid_at
expired = refl

require_bearer_token_iff_example :
    (Carries at_noon answer_page tokens (presented_token (some "Bearer new")) []
      × ((require_bearer_token at_noon answer_page tokens (some "Bearer new") []).0
          ≡ handed_on "page"))
    ⊎ (¬ Carries at_noon answer_page tokens (presented_token (some "Bearer new")) []
        × ((require_bearer_token at_noon answer_page tokens (some "Bearer new") []).0
            ≡ unauthorized))
require_bearer_token_iff_example =
    require_bearer_token_iff at_noon answer_page tokens (some "Bearer new") []
