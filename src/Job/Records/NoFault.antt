-- ===== src/Job/Records/NoFault.antt =====
-- The writers of src/reconcile/job.rs while the database refuses no statement.
use kube_shim.Prelude.{◌≡◌, refl, Option, some, String}
use kube_shim.Prelude.Int.{ℤ}
use kube_shim.Status.{Status}
use kube_shim.Db.{Event, EventType, warning, insert_event, update_job}
use kube_shim.Program.{ok, World, System, call, ◌>>=◌}
use kube_shim.Program.NoFault.{NoFault, execute-NoFault}
use kube_shim.Job.Records.{record_event, force_failed, move_to, fail_row, move_row}

module _ {C : Type 0} (sys : System C) where
  -- the event that `record_event` writes in a world
  abbrev pub new_event : Option String → String → String → EventType → C → Event
  new_event job_id reason message t c =
      let (id, c') = sys.new_uuid c in
      record {
        id = id;
        job_id = job_id;
        reason = reason;
        message = message;
        timestamp = (sys.now c').0;
        event_type = t;
      }

  abbrev pub after_event : C → C
  after_event c = (sys.fault (sys.now (sys.new_uuid c).1).1).1

module _ {C F : Type 0} (sys : System C) (safe : NoFault sys) where
  pub record_event-NoFault :
      (job_id : Option String) (reason message : String) (t : EventType) (w : World C F)
      → record_event sys job_id reason message t w ≡ (
        ok tt,
        record {
          db = insert_event (new_event sys job_id reason message t w.cloud) w.db;
          cloud = after_event sys w.cloud;
        },
      )
  unfolding record_event ◌>>=◌ call
  record_event-NoFault job_id reason message t w = rw (execute-NoFault sys safe) refl

  pub force_failed-NoFault :
      (id reason : String) (now : ℤ) (w : World C F)
      → force_failed sys id reason now w ≡ (
        ok tt,
        record {
          db =
              insert_event
                (new_event sys (some id) "Failed" reason warning (sys.fault w.cloud).1)
                (update_job id (fail_row reason now) w.db);
          cloud = after_event sys (sys.fault w.cloud).1;
        },
      )
  unfolding force_failed ◌>>=◌
  force_failed-NoFault id reason now w = rw (execute-NoFault sys safe) (rw record_event-NoFault)

  pub move_to-NoFault :
      (id : String) (target : Status) (now : ℤ) (w : World C F)
      → move_to sys id target now w ≡ (
        ok tt,
        record { db = update_job id (move_row target now) w.db; cloud = (sys.fault w.cloud).1 },
      )
  unfolding move_to
  move_to-NoFault id target now w = execute-NoFault sys safe _ w
