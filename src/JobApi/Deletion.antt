-- ===== src/JobApi/Deletion.antt =====
-- The deletion of a job by delete_job of src/api/job.rs.
use kube_shim.Prelude.{
  ℕ, ◌≡◌, ◌≢◌, refl, sym, ◌∙◌, ◌⊎◌, inl, inr, true, false, not, none, some, String, List, [], ◌∷◌,
  find, select, map_option, str_eq, str_eq_iff, Bool-cases,
}
use kube_shim.Prelude.Int.{ℤ}
use kube_shim.Status.{is_pre_completion_state}
use kube_shim.Db.{JobRow, Db, find_job, update_job, insert_event, has_failed_event}
use kube_shim.Db.Rows.{find_job-update_job}
use kube_shim.Program.{Result, ok, err, World, System, ◌>>=◌, call}
use kube_shim.Program.NoFault.{NoFault, query-NoFault, execute-NoFault}
use kube_shim.Http.{go_on, internal_result, next, of_action}
use kube_shim.Job.Records.{fail_row}
use kube_shim.Job.Records.NoFault.{force_failed-NoFault}
use kube_shim.Job.Advance.Events.{own_failed_event}
use kube_shim.JobApi.{find_named, delete_row, remove, delete_found, delete_job, deleted_reason}

module _ {F : Type 0} where
  find-select_other :
      (id : String) (rows : List (JobRow F))
      → find (λ r. str_eq r.id id) (select (λ r. not (str_eq r.id id)) rows) ≡ none
  find-select_other id [] = refl
  find-select_other id (r ∷ rows) = elim (Bool-cases (str_eq r.id id)) [
    | inl e ↦ rw e (find-select_other id rows)
    | inr e ↦ rw (e, e) (find-select_other id rows)
  ]

  find-select :
      (id gone : String) (rows : List (JobRow F))
      → id ≢ gone
      → find (λ r. str_eq r.id id) (select (λ r. not (str_eq r.id gone)) rows)
        ≡ find (λ r. str_eq r.id id) rows
  find-select id gone [] ne = refl
  find-select id gone (r ∷ rows) ne = elim (Bool-cases (str_eq r.id gone)) [
    | inl e ↦ elim (Bool-cases (str_eq r.id id)) [
      | inl f ↦ absurd (ne (sym ((str_eq_iff r.id id).0 f) ∙ (str_eq_iff r.id gone).0 e))
      | inr f ↦ rw (e, f) (find-select id gone rows ne)
    ]
    | inr e ↦ elim (Bool-cases (str_eq r.id id)) [
      | inl f ↦ rw (e, f) refl
      | inr f ↦ rw (e, f) (find-select id gone rows ne)
    ]
  ]

  -- a job that has not completed, after its deletion
  abbrev pub Stopped : JobRow F → Db F → Db F → Type 0
  Stopped r before after =
      (is_pre_completion_state r.status ≡ true)
      × ((now : ℤ) × (find_job r.id after
            ≡ map_option (fail_row deleted_reason now) (find_job r.id before)))
      × (has_failed_event r.id after.events ≡ true)

  -- a job that has completed, after its deletion
  abbrev pub Gone : JobRow F → Db F → Db F → Type 0
  Gone r before after =
      (is_pre_completion_state r.status ≡ false)
      × (find_job r.id after ≡ none)
      × ((id : String) → id ≢ r.id → find_job id after ≡ find_job id before)
      × (after.events ≡ before.events)

module _ {C F : Type 0} (system : System C) (safe : NoFault system) where
  remove-Stopped :
      (r : JobRow F) (w : World C F)
      → is_pre_completion_state r.status ≡ true
      → let done = remove system r w in
        (done.0 ≡ ok tt) × Stopped r w.db done.1.db × (done.1.db.job_volumes ≡ w.db.job_volumes)
  unfolding remove ◌>>=◌ call insert_event find_job update_job
  remove-Stopped r w e =
      let now = (system.now w.cloud).0 in
      rw (e, force_failed-NoFault system safe)
        (
          refl,
          (
            refl,
            (now, find_job-update_job r.id (fail_row deleted_reason now) w.db (λ a. refl)),
            own_failed_event system r.id deleted_reason _ _ w.db.events,
          ),
          refl,
        )

  remove-Gone :
      (r : JobRow F) (w : World C F)
      → is_pre_completion_state r.status ≡ false
      → let done = remove system r w in
        (done.0 ≡ ok tt) × Gone r w.db done.1.db × (done.1.db.job_volumes ≡ w.db.job_volumes)
  unfolding remove delete_row find_job
  remove-Gone r w e =
      rw (e, execute-NoFault system safe)
        (
          refl,
          (refl, find-select_other r.id w.db.jobs, λ id ne. find-select id r.id w.db.jobs ne, refl),
          refl,
        )

  answered :
      (P Q : Db F → Type 0) (r : Result String Unit) (w : World C F)
      → r ≡ ok tt
      → P w.db
      → Q w.db
      → let done = go_on {B = ℕ} (internal_result r) (λ _ w'. (ok 204, w')) w in
        (done.0 ≡ ok 204) × P done.1.db × Q done.1.db
  unfolding go_on internal_result
  answered P Q (ok a) w e h k = (refl, h, k)
  answered P Q (err x) w e h k = cc

  -- While the database refuses no statement, the deletion of a job that there is is answered by 204.
  -- A job that has not completed becomes `Failed` for this reason and has its `Failed` event, while of
  -- one that has completed the row goes, and no other row. Neither deletes a row of a volume.
  pub delete_job-deletes :
      (namespace name : String) (r : JobRow F) (w : World C F)
      → find_named namespace name w.db ≡ some r
      → let done = delete_job system namespace name w in
        (done.0 ≡ ok 204)
        × (Stopped r w.db done.1.db ⊎ Gone r w.db done.1.db)
        × (done.1.db.job_volumes ≡ w.db.job_volumes)
  unfolding delete_job delete_found next of_action
  delete_job-deletes namespace name r w found =
      rw (query-NoFault system safe, found)
        (let w' = record w { cloud = (system.fault w.cloud).1 } in
          let ended =
            answered (λ db. Stopped r w.db db ⊎ Gone r w.db db)
              (λ db. db.job_volumes ≡ w.db.job_volumes) (remove system r w').0
              (remove system r w').1 in
          elim (Bool-cases (is_pre_completion_state r.status)) [
            | inl e ↦
                let (done, stopped, volumes) = remove-Stopped r w' e in
                ended done (inl stopped) volumes
            | inr e ↦
                let (done, gone, volumes) = remove-Gone r w' e in ended done (inr gone) volumes
          ])
