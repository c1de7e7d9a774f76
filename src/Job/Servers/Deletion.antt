-- ===== src/Job/Servers/Deletion.antt =====
-- `handle_vm_terminating` of src/reconcile/job.rs: what its answer `true` means.
use kube_shim.Prelude.{◌≡◌, sym, true, false, Option, none, some, String}
use kube_shim.Db.{find_job}
use kube_shim.Program.{Result, ok, err, World, System, or_no_row, call, continue, ◌>>=◌, on_result}
use kube_shim.Program.Keeps.{OnCloud, Keeps-pure}
use kube_shim.Program.Yields.{Yields, yields_rules, query_value}
use kube_shim.Program.WhenTrue.{
  WhenTrue, WhenTrue-else, WhenTrue-found, WhenTrue-call, Achieves, when_true_at, when_true_rules,
}
use kube_shim.Provider.{ProviderError, Server, not_found}
use kube_shim.Context.{JobContext}
use kube_shim.Job.Records.{worker_vm_id, worker_vm_of}
use kube_shim.Job.Volumes.{attempt_failed}
use kube_shim.Job.Servers.{
  delete_server, stop_server, stop_or_delete_server, get_server_failed, handle_vm_terminating,
}

module _ {C F A : Type 0} where
  pub continue_no_row :
      (r : Result String (Option A)) (w : World C F) (a : A)
      → (continue {C = C} {F = F} r or_no_row w).0 ≡ ok a
      → r ≡ ok (some a)
  unfolding or_no_row
  continue_no_row (ok none) w a h = cc
  continue_no_row (ok (some b)) w a h = cc
  continue_no_row (err e) w a h = cc

-- The answer of `worker_vm_id` is the column of the row.
pub worker_vm_id-value :
    {C F : Type 0} (sys : System C) (id : String) (w : World C F) (vm : Option String)
    → (worker_vm_id sys id w).0 ≡ ok vm
    → worker_vm_of (find_job id w.db) ≡ some vm
unfolding worker_vm_id ◌>>=◌
worker_vm_id-value sys id w vm h =
    sym
      (query_value sys (λ db. worker_vm_of (find_job id db)) w (some vm) (continue_no_row _ _ vm h))

module _ {C V F : Type 0} (ctx : JobContext C V F) where
  pub Yields-attempt_failed :
      (id error : String) → Yields (λ b. b ≡ false) (attempt_failed ctx id error)
  unfolding attempt_failed
  Yields-attempt_failed id error = search (yields_rules)

  module _ (id : String) (vm : String) {Gone : C → Type 0}
      (deletes : Achieves Gone (ctx.provider.delete_server vm)) where
    Deleted-delete_server : WhenTrue (OnCloud Gone) (delete_server ctx id vm)
    unfolding delete_server
    Deleted-delete_server =
        search (WhenTrue-call, when_true_rules, Keeps-pure, Yields-attempt_failed)

    Deleted-stop_server : WhenTrue (OnCloud Gone) (stop_server ctx id vm)
    unfolding stop_server
    Deleted-stop_server = search (when_true_rules, Yields-attempt_failed)

    Deleted-stop_or_delete_server :
        (server : Server) → WhenTrue (OnCloud Gone) (stop_or_delete_server ctx id vm server)
    unfolding stop_or_delete_server
    Deleted-stop_or_delete_server server =
        search (when_true_rules, Deleted-delete_server, Deleted-stop_server)

    Deleted-get_server_failed :
        (e : ProviderError) → WhenTrue (OnCloud Gone) (get_server_failed ctx id vm e)
    unfolding get_server_failed
    Deleted-get_server_failed (not_found m) = Deleted-delete_server
    Deleted-get_server_failed e = search (when_true_rules, Yields-attempt_failed)

    Deleted-rest : WhenTrue (OnCloud Gone) (
        call (ctx.provider.get_server vm) >>= λ got.
        on_result got
          (λ server. stop_or_delete_server ctx id vm server)
          (λ e. get_server_failed ctx id vm e))
    Deleted-rest =
        search (when_true_rules, Deleted-stop_or_delete_server, Deleted-get_server_failed)

    -- In a real run, where the row has a worker VM, the answer `true` of `VMTerminating` means that
    -- the provider's deletion of this VM succeeded.
    pub handle_vm_terminating-deletes :
        (w : World C F)
        → ctx.dry_run ≡ false
        → worker_vm_of (find_job id w.db) ≡ some (some vm)
        → (handle_vm_terminating ctx id w).0 ≡ ok true
        → Gone (handle_vm_terminating ctx id w).1.cloud
    unfolding handle_vm_terminating
    handle_vm_terminating-deletes w wet row h =
        (when_true_at (OnCloud Gone) (worker_vm_id ctx.system id) _ w h λ a got h'.
          (WhenTrue-found a _ _ (cc (worker_vm_id-value ctx.system id w a got, row))
              (WhenTrue-else ctx.dry_run wet _ _ Deleted-rest)).at
            _ h').holds
