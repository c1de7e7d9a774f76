-- ===== src/Job/Containers/Delivery.antt =====
-- `handle_container_configuring` of src/reconcile/job.rs: what its answer `true` means.
use kube_shim.Prelude.{
  ℕ, ◌≡◌, refl, Bool, true, false, Option, String, List, [], ◌∷◌, ◌++◌, ◌<>◌, none, some, sym, ap,
  ◌∙◌, if◌then◌else◌,
}
use kube_shim.Db.{find_job}
use kube_shim.Program.{Result, ok, err, World, System, M, let_some, pure, call, ◌>>=◌, on_result}
use mathlib.Core.List.{append-nil, append_assoc}
use kube_shim.Program.Keeps.{OnCloud}
use kube_shim.Program.WhenTrue.{WhenTrue, WhenTrue-false, when_true_at, when_true_rules}
use kube_shim.Context.{JobContext, ContainerConfig, ExecOutput}
use kube_shim.Program.Yields.{query_value}
use kube_shim.Job.Spec.{parse_spec}
use kube_shim.Job.Records.{worker_ip_of, worker_ssh_ip}
use kube_shim.Job.Servers.{resolve_container_config}
use kube_shim.Job.Servers.Config.{resolve_container_config-db}
use kube_shim.Job.Servers.Deletion.{Yields-attempt_failed, continue_no_row}
use kube_shim.Job.Containers.{
  uploads, exited_zero, upload, upload_all, deliver, handle_container_configuring,
}

-- What becomes of the outside as files are written to a worker: `Written ip files` says that these
-- writes have been made on the worker at `ip`, in this order.
pub record Writes {C V F : Type 0} (ctx : JobContext C V F)
    (Written : String → List (String × List ℕ) → C → Type 0) : Type 0 where
  pub start : (ip : String) (c : C) → Written ip [] c
  pub next :
      (ip command : String) (contents : List ℕ) (files : List (String × List ℕ)) (c : C)
      (out : ExecOutput)
      → Written ip files c
      → (ctx.ssh.exec_with_stdin ip ctx.worker_ssh_port ctx.worker_ssh_private_key command contents
          c).0
        ≡ ok out
      → exited_zero out.exit_status ≡ true
      → Written ip
          (files ++ (command, contents) ∷ [])
          (ctx.ssh.exec_with_stdin ip ctx.worker_ssh_port ctx.worker_ssh_private_key command
            contents c).1

module _ {C F : Type 0} (sys : System C) where
  -- The answer of `worker_ssh_ip` is the column of the row.
  worker_ssh_ip-value :
      (id : String) (w : World C F) (ip : Option String)
      → (worker_ssh_ip sys id w).0 ≡ ok ip
      → worker_ip_of (find_job id w.db) ≡ some ip
  unfolding worker_ssh_ip ◌>>=◌
  worker_ssh_ip-value id w ip h =
      sym (
        query_value sys (λ db. worker_ip_of (find_job id db)) w (some ip)
          (continue_no_row _ _ ip h))

module _ {C F : Type 0} (R : World C F → Type 0) where
  if_at :
      (b : Bool) (m n : M C F Bool) (w : World C F)
      → (b ≡ true → (m w).0 ≡ ok true → R (m w).1)
      → WhenTrue R n
      → ((if b then m else n) w).0 ≡ ok true
      → R ((if b then m else n) w).1
  if_at true m n w km kn h = km refl h
  if_at false m n w km kn h = kn.at w h

  else_at :
      (b : Bool)
      → b ≡ false
      → (m n : M C F Bool) (w : World C F) → ((n w).0 ≡ ok true → R (n w).1)
      → ((if b then m else n) w).0 ≡ ok true
      → R ((if b then m else n) w).1
  else_at true e m n w k h = cc e
  else_at false e m n w k h = k h

  -- the answer of one write
  written_at :
      (r : Result String ExecOutput) (more : M C F Bool) (bad : ExecOutput → M C F Bool)
      (w : World C F)
      → ((out : ExecOutput)
          → r ≡ ok out
          → exited_zero out.exit_status ≡ true
          → (more w).0 ≡ ok true
          → R (more w).1)
      → ((out : ExecOutput) → WhenTrue R (bad out))
      → (on_result r
          (λ out. if exited_zero out.exit_status then more else bad out)
          (λ _. pure false)
          w).0
        ≡ ok true
      → R
          (on_result r
            (λ out. if exited_zero out.exit_status then more else bad out)
            (λ _. pure false)
            w).1
  unfolding on_result
  written_at (ok out) more bad w k kb h =
      if_at (exited_zero out.exit_status) more (bad out) w (k out refl) (kb out) h
  written_at (err e) more bad w k kb h = (WhenTrue-false {R = R}).at w h

module _ {C V F : Type 0} (ctx : JobContext C V F)
    {Written : String → List (String × List ℕ) → C → Type 0} (writes : Writes ctx Written) where
  -- from a state in which `files` have been written
  abbrev From : String → List (String × List ℕ) → List (String × List ℕ) → M C F Bool → Type 0
  From ip files all m =
      (w : World C F) → Written ip files w.cloud → (m w).0 ≡ ok true → Written ip all (m w).1.cloud

  upload-Written :
      (id ip command : String) (contents : List ℕ) (files all : List (String × List ℕ))
      (more : M C F Bool)
      → From ip (files ++ (command, contents) ∷ []) all more
      → From ip files all (upload ctx id ip command contents more)
  unfolding upload call ◌>>=◌ on_result
  upload-Written id ip command contents files all more k w h e =
      (written_at (OnCloud (Written ip all)) _ more _ _
        (λ out answered zero e'. record {
          holds = k _ (writes.next ip command contents files w.cloud out h answered zero) e';
        })
        (λ out. search (when_true_rules, Yields-attempt_failed)) e).holds

  upload_all-Written :
      (id ip : String) (files rest : List (String × List ℕ))
      → From ip files (files ++ rest) (upload_all ctx id ip rest)
  unfolding upload_all pure
  upload_all-Written id ip files [] w h e = rw append-nil h
  upload_all-Written id ip files ((command, contents) ∷ rest) w h e =
      upload-Written id ip command contents files _ _
        (λ w' h' e'.
          rw (← append_assoc files ((command, contents) ∷ []) rest)
            (upload_all-Written id ip (files ++ (command, contents) ∷ []) rest w' h' e'))
        w h e

  deliver-Written :
      (id ip : String) (config : ContainerConfig)
      → WhenTrue (OnCloud {F = F} (Written ip (uploads config))) (deliver ctx id config (some ip))
  unfolding deliver let_some
  deliver-Written id ip config = search (when_true_rules, Yields-attempt_failed, all_written)
    where
      all_written :
          WhenTrue
            (OnCloud {F = F} (Written ip (uploads config)))
            (upload_all ctx id ip (uploads config))
      all_written = record {
        at = λ w e. record {
          holds = upload_all-Written id ip [] (uploads config) w (writes.start ip w.cloud) e;
        };
      }

  -- A file is written under another name first, and has its own once it is complete.
  abbrev pub replaces : String → String
  replaces path =
      "umask 077 && mkdir -p /run/kube-shim && cat > " <> path <> ".part && mv -f " <> path
      <> ".part " <> path

  -- the four files of a configuration and, last, the mark that they are complete
  abbrev pub delivery : ContainerConfig → List (String × List ℕ)
  delivery config =
      (replaces "/run/kube-shim/env", config.env_file)
      ∷ (replaces "/run/kube-shim/secret-env", config.secret_env)
      ∷ (replaces "/run/kube-shim/command", config.command)
      ∷ (replaces "/run/kube-shim/args", config.args)
      ∷ ("umask 077 && cat > /run/kube-shim/ready", [])
      ∷ []

  module _ (id namespace name spec_str : String) (before : World C F) where
    -- What a job's container configuration resolves to in the world `before` has been written to the
    -- worker at the address of the job's row.
    abbrev pub Delivered : C → Type 0
    Delivered c =
        (ip : String) × (config : ContainerConfig) × (worker_ip_of (find_job id before.db)
          ≡ some (some ip))
        × ((resolve_container_config ctx id namespace name (parse_spec ctx.json spec_str) before).0
            ≡ ok (some config))
        × Written ip (delivery config) c

    module _ (config : ContainerConfig)
        (resolved : (resolve_container_config ctx id namespace name
            (parse_spec ctx.json spec_str)
            before).0
          ≡ ok (some config)) where
      Delivers-deliver :
          (o : Option String)
          → worker_ip_of (find_job id before.db) ≡ some o
          → WhenTrue (OnCloud Delivered) (deliver ctx id config o)
      unfolding deliver let_some
      Delivers-deliver none known = search (when_true_rules, Yields-attempt_failed)
      Delivers-deliver (some ip) known = record {
        at = λ w h. record {
          holds = (ip, config, known, resolved, ((deliver-Written id ip config).at w h).holds);
        };
      }

      Delivers-rest :
          (w : World C F)
          → w.db ≡ before.db
          → ((worker_ssh_ip ctx.system id >>= λ o. deliver ctx id config o) w).0 ≡ ok true
          → OnCloud Delivered ((worker_ssh_ip ctx.system id >>= λ o. deliver ctx id config o) w).1
      Delivers-rest w same h =
          when_true_at (OnCloud Delivered) (worker_ssh_ip ctx.system id) _ w h (λ o known h'.
            (Delivers-deliver o (
                ap (λ db. worker_ip_of (find_job id db)) (sym same)
                ∙ worker_ssh_ip-value ctx.system id w o known)).at
              _ h')

    -- In a real run, where `Written ip files` holds once these writes have succeeded on the worker at
    -- `ip` in this order, the answer `true` of `ContainerConfiguring` means that the configuration
    -- that the job's container resolves to has been written to the worker at the address of the job's
    -- row: the variables, the secrets, the command and the arguments, each to its file and complete
    -- before it has its name, and, after all four, the mark that they are complete.
    pub handle_container_configuring-delivers :
        ctx.dry_run ≡ false
        → (handle_container_configuring ctx id namespace name spec_str before).0 ≡ ok true
        → Delivered (handle_container_configuring ctx id namespace name spec_str before).1.cloud
    unfolding handle_container_configuring let_some pure
    handle_container_configuring-delivers wet h =
        (when_true_at (OnCloud Delivered)
          (resolve_container_config ctx id namespace name (parse_spec ctx.json spec_str)) _ before h
          (λ found answered h'. configured found answered h')).holds
      where
        configured :
            (found : Option ContainerConfig)
            → (resolve_container_config ctx id namespace name
                (parse_spec ctx.json spec_str)
                before).0
              ≡ ok found
            → (let_some found
                (pure false)
                (λ c.
                  if ctx.dry_run
                  then pure true
                  else (worker_ssh_ip ctx.system id >>= λ o. deliver ctx id c o))
                (resolve_container_config ctx id namespace name
                  (parse_spec ctx.json spec_str)
                  before).1).0
              ≡ ok true
            → OnCloud Delivered
                (let_some found
                  (pure false)
                  (λ c.
                    if ctx.dry_run
                    then pure true
                    else (worker_ssh_ip ctx.system id >>= λ o. deliver ctx id c o))
                  (resolve_container_config ctx id namespace name
                    (parse_spec ctx.json spec_str)
                    before).1).1
        configured none answered h' = cc h'
        configured (some config) answered h' =
            else_at (OnCloud Delivered) ctx.dry_run wet _ _ _
              (Delivers-rest config answered _ (
                resolve_container_config-db ctx id namespace name (parse_spec ctx.json spec_str)
                  before config answered))
              h'
