-- ===== src/Db/Quiet.antt =====
-- Statements that leave a job where it is: they write events, volumes, and columns of one row other
-- than those by which the state machine goes.
use kube_shim.Prelude.{String, ◌≡◌, ◌∙◌, refl}
use kube_shim.Db.{
  JobRow, VolumeRow, Event, Db, update_job, insert_event, insert_volume, delete_volumes,
}

-- The columns that only `INSERT` writes.
pub record SameKey {F : Type 0} (r s : JobRow F) : Type 0 where
  pub id : r.id ≡ s.id
  pub name : r.name ≡ s.name
  pub namespace : r.namespace ≡ s.namespace
  pub spec : r.spec ≡ s.spec
  pub created_at : r.created_at ≡ s.created_at

pub record SameJob {F : Type 0} (r s : JobRow F) : Type 0 where
  pub key : SameKey r s
  pub status : r.status ≡ s.status
  pub version : r.version ≡ s.version

pub SameKey-refl : {F : Type 0} (r : JobRow F) → SameKey r r
SameKey-refl r = record { id = refl; name = refl; namespace = refl; spec = refl; created_at = refl }

pub SameKey-trans : {F : Type 0} {a b c : JobRow F} → SameKey a b → SameKey b c → SameKey a c
SameKey-trans k l = record {
  id = k.id ∙ l.id;
  name = k.name ∙ l.name;
  namespace = k.namespace ∙ l.namespace;
  spec = k.spec ∙ l.spec;
  created_at = k.created_at ∙ l.created_at;
}

pub SameJob-refl : {F : Type 0} (r : JobRow F) → SameJob r r
SameJob-refl r = record { key = SameKey-refl r; status = refl; version = refl }

-- `Q` withstands every such statement about the job `id`.
pub record Quiet {F : Type 0} (id : String) (Q : Db F → Type 0) : Type 0 where
  pub on_event : (e : Event) (db : Db F) → Q db → Q (insert_event e db)
  pub on_volume : (v : VolumeRow) (db : Db F) → Q db → Q (insert_volume v db)
  pub on_delete : (db : Db F) → Q db → Q (delete_volumes id db)
  pub on_row :
      (f : JobRow F → JobRow F)
      → ((r : JobRow F) → SameJob r (f r))
      → (db : Db F) → Q db
      → Q (update_job id f db)
