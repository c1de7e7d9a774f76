-- ===== src/Job/Advance/Archive.antt =====
-- The cleanup of a job by the loop of `advance_all_until` of src/reconcile/job.rs.
use kube_shim.Prelude.{
  ◌≡◌, refl, ap, sym, ◌∙◌, ◌⊎◌, inl, inr, Bool, true, false, map_option, Option, none, some, String,
}
use kube_shim.Prelude.Int.{ℤ}
use kube_shim.Db.{JobRow, Db, find_job, find_volume, insert_event, insert_volume, delete_volumes}
use kube_shim.Db.Quiet.{SameJob, Quiet}
use kube_shim.Db.Rows.{find_job-update_job}
use kube_shim.Status.{
  Status, vm_terminating, archived, volume_detaching, volume_deleted, next_state,
  is_pre_completion_state,
}
use kube_shim.Program.{Result, ok, err, World, M, pure, continue, ◌>>=◌, let_some}
use kube_shim.Program.Keeps.{Keeps, OnDb, OnCloud, keeps_rules}
use kube_shim.Program.WhenTrue.{Achieves}
use kube_shim.Context.{JobContext}
use kube_shim.Job.Records.{worker_vm_of, volume_id_of}
use kube_shim.Job.Records.Local.{Local, local_rules}
use kube_shim.Job.Volumes.{handle_volume_detaching}
use kube_shim.Job.Volumes.Deletion.{handle_volume_detaching-deletes}
use kube_shim.Job.Volumes.Tables.{Keeps-handle_volume_detaching}
use kube_shim.Job.Servers.Tables.{Keeps-handle_vm_terminating}
use kube_shim.Job.Servers.{handle_vm_terminating}
use kube_shim.Job.Servers.Deletion.{handle_vm_terminating-deletes}
use kube_shim.Job.Advance.{when, handle, transition, run_handler, advance_job, overdue}

module _ {C F : Type 0} where
  continue-when :
      (r : Result String Bool) (next t : Status) (w : World C F)
      → (continue {C = C} {F = F} r (λ done. pure (when done next)) w).0 ≡ ok (some t)
      → (r ≡ ok true) × ((continue {C = C} {F = F} r (λ done. pure (when done next)) w).1 ≡ w)
  unfolding pure
  continue-when (ok true) next t w h = (refl, refl)
  continue-when (ok false) next t w h = (cc, refl)
  continue-when (err e) next t w h = (cc, refl)

abbrev pub status_of : {F : Type 0} → Option (JobRow F) → Option Status
status_of none = none
status_of (some r) = some r.status

abbrev Stands : {F : Type 0} → String → Status → Db F → Type 0
Stands id s db = status_of (find_job id db) ≡ some s

status_of-map :
    {F : Type 0} (f : JobRow F → JobRow F)
    → ((r : JobRow F) → SameJob r (f r))
    → (o : Option (JobRow F)) → status_of (map_option f o) ≡ status_of o
status_of-map f same none = refl
status_of-map f same (some r) = ap some (sym (same r).status)

-- No quiet statement moves the job.
Quiet-Stands : {F : Type 0} (id : String) (s : Status) → Quiet {F = F} id (Stands id s)
unfolding insert_event insert_volume delete_volumes find_job
Quiet-Stands id s = record {
  on_event = λ e db h. h;
  on_volume = λ v db h. h;
  on_delete = λ db h. h;
  on_row = λ f same db h.
      ap status_of (find_job-update_job id f db (λ r. sym (same r).key.id))
      ∙ status_of-map f same (find_job id db)
      ∙ h;
}

module _ {C V F : Type 0} (ctx : JobContext C V F) (r : JobRow F) where
  Stands-terminating :
      Keeps (OnDb (Stands r.id vm_terminating)) (handle ctx vm_terminating r archived)
  unfolding handle
  Stands-terminating =
      search (keeps_rules, Keeps-handle_vm_terminating ctx (Quiet-Stands r.id vm_terminating))

  Stands-detaching :
      Keeps (OnDb (Stands r.id volume_detaching)) (handle ctx volume_detaching r volume_deleted)
  unfolding handle
  Stands-detaching =
      search (keeps_rules, Keeps-handle_volume_detaching ctx (Quiet-Stands r.id volume_detaching))

module _ {C V F : Type 0} (ctx : JobContext C V F) {Gone : C → Type 0} (local : Local ctx Gone)
    (now : ℤ) (r : JobRow F) where
  abbrev StaysOrGone : Status → World C F → Type 0
  StaysOrGone s w = (status_of (find_job r.id w.db) ≡ some s) ⊎ Gone w.cloud

  Keeps-transition : (t : Status) → Keeps (OnCloud Gone) (transition ctx r t now)
  unfolding transition
  Keeps-transition t = search local_rules depth 7

  -- the rest after the handler's answer
  after_answer :
      (s : Status) (answer : Result String (Option Status)) (w : World C F)
      → ((t : Status) → answer ≡ ok (some t) → Gone w.cloud)
      → status_of (find_job r.id w.db) ≡ some s
      → StaysOrGone s
          (continue answer (λ o. let_some o (pure false) (λ t. transition ctx r t now)) w).1
  unfolding let_some pure
  after_answer s (err e) w gone stands = inl stands
  after_answer s (ok none) w gone stands = inl stands
  after_answer s (ok (some t)) w gone stands =
      inr ((Keeps-transition t).at w (record { holds = gone t refl })).holds

  stays_or_gone :
      (s : Status) (m : M C F (Option Status)) (w : World C F)
      → ((t : Status) → (m w).0 ≡ ok (some t) → Gone (m w).1.cloud)
      → status_of (find_job r.id (m w).1.db) ≡ some s
      → StaysOrGone s ((m >>= λ o. let_some o (pure false) (λ t. transition ctx r t now)) w).1
  unfolding ◌>>=◌
  stays_or_gone s m w gone stands = after_answer s (m w).0 (m w).1 gone stands

  handler_deleted :
      (vm : String)
      → Achieves Gone (ctx.provider.delete_server vm)
      → (w : World C F) (t : Status) → ctx.dry_run ≡ false
      → worker_vm_of (find_job r.id w.db) ≡ some (some vm)
      → (handle ctx vm_terminating r archived w).0 ≡ ok (some t)
      → Gone (handle ctx vm_terminating r archived w).1.cloud
  unfolding handle ◌>>=◌
  handler_deleted vm deletes w t wet row h =
      let (done, same) =
        continue-when (handle_vm_terminating ctx r.id w).0 archived t
          (handle_vm_terminating ctx r.id w).1 h in
      rw same (handle_vm_terminating-deletes ctx r.id vm deletes w wet row done)

  terminating_step :
      (w : World C F)
      → r.status ≡ vm_terminating
      → advance_job ctx now r w
        ≡ (handle ctx vm_terminating r archived >>= λ target.
              let_some target (pure false) (λ t. transition ctx r t now))
            w
  unfolding advance_job run_handler overdue next_state is_pre_completion_state let_some
  terminating_step w status = rw status

  -- In a real run, a job in `VMTerminating` whose row has a worker VM leaves this state only when the
  -- provider's deletion of this VM succeeded: however the body of the loop ends, in an answer or in
  -- an error, the row still says `VMTerminating` afterwards, or that holds which a successful
  -- deletion achieves and the clock, the generator of ids, the database and the other tables keep.
  pub advance_job-archives_deleted :
      (vm : String)
      → Achieves Gone (ctx.provider.delete_server vm)
      → (w : World C F) → ctx.dry_run ≡ false
      → r.status ≡ vm_terminating
      → status_of (find_job r.id w.db) ≡ some vm_terminating
      → worker_vm_of (find_job r.id w.db) ≡ some (some vm)
      → (status_of (find_job r.id (advance_job ctx now r w).1.db) ≡ some vm_terminating)
        ⊎ Gone (advance_job ctx now r w).1.cloud
  advance_job-archives_deleted vm deletes w wet status stands row = rw (terminating_step w status) (
      stays_or_gone vm_terminating (handle ctx vm_terminating r archived) w
        (λ t. handler_deleted vm deletes w t wet row)
        ((Stands-terminating ctx r).at w (record { holds = stands })).holds)

  volume_deleted_by :
      (volume : String)
      → Achieves Gone (ctx.provider.delete_volume volume)
      → (w : World C F) (t : Status) → ctx.dry_run ≡ false
      → volume_id_of (find_volume r.id w.db) ≡ some volume
      → (handle ctx volume_detaching r volume_deleted w).0 ≡ ok (some t)
      → Gone (handle ctx volume_detaching r volume_deleted w).1.cloud
  unfolding handle ◌>>=◌
  volume_deleted_by volume deletes w t wet row h =
      let (done, same) =
        continue-when (handle_volume_detaching ctx r.id w).0 volume_deleted t
          (handle_volume_detaching ctx r.id w).1 h in
      rw same (handle_volume_detaching-deletes ctx r.id volume deletes local.fault w wet row done)

  detaching_step :
      (w : World C F)
      → r.status ≡ volume_detaching
      → advance_job ctx now r w
        ≡ (handle ctx volume_detaching r volume_deleted >>= λ target.
              let_some target (pure false) (λ t. transition ctx r t now))
            w
  unfolding advance_job run_handler overdue next_state is_pre_completion_state let_some
  detaching_step w status = rw status

  -- In a real run, a job in `VolumeDetaching` that has a volume of the provider leaves this state only
  -- when the provider's deletion of this volume succeeded: however the body of the loop ends, in an
  -- answer or in an error, the row still says `VolumeDetaching` afterwards, or that holds which a
  -- successful deletion achieves and the clock, the generator of ids, the database and the other
  -- tables keep.
  pub advance_job-leaves_no_volume :
      (volume : String)
      → Achieves Gone (ctx.provider.delete_volume volume)
      → (w : World C F) → ctx.dry_run ≡ false
      → r.status ≡ volume_detaching
      → status_of (find_job r.id w.db) ≡ some volume_detaching
      → volume_id_of (find_volume r.id w.db) ≡ some volume
      → (status_of (find_job r.id (advance_job ctx now r w).1.db) ≡ some volume_detaching)
        ⊎ Gone (advance_job ctx now r w).1.cloud
  advance_job-leaves_no_volume volume deletes w wet status stands row =
      rw (detaching_step w status) (
        stays_or_gone volume_detaching (handle ctx volume_detaching r volume_deleted) w
          (λ t. volume_deleted_by volume deletes w t wet row)
          ((Stands-detaching ctx r).at w (record { holds = stands })).holds)
