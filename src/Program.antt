-- ===== src/Program.antt =====
-- How the asynchronous functions of the shim are written: actions that read and write the database,
-- call what lies outside the process, and may end in an error that `?` hands to the caller. What
-- was written before an error stays written, so the world comes back beside the error too.
pub mod Keeps
pub mod Yields
pub mod WhenTrue
pub mod At
pub mod NoFault
pub mod Triple
use kube_shim.Prelude.Int.{ℤ}
use kube_shim.Prelude.{Bool, Option, none, some, String, List}
use kube_shim.Db.{Db}

pub data Result (E A : Type 0) : Type 0 where
  ok : A → Result E A
  err : E → Result E A

-- `C` is the state of all that lies outside the process: the cloud, the workers, the clock.
pub record World (C F : Type 0) : Type 0 where
  pub db : Db F
  pub cloud : C

-- `anyhow::Error` is its text.
abbrev pub M : Type 0 → Type 0 → Type 0 → Type 0
M C F A = World C F → Result String A × World C F

-- A call of something outside the process.
abbrev pub Call : Type 0 → Type 0 → Type 0
Call C A = C → A × C

-- The clock (`Utc::now().timestamp()`), `Uuid::new_v4()`, and whether SQLite refuses the next
-- statement, with which error.
pub record System (C : Type 0) : Type 0 where
  pub now : Call C ℤ
  pub new_uuid : Call C String
  pub fault : Call C (Option String)

module _ {C F A : Type 0} where
  unfoldable pub pure : A → M C F A
  pure a w = (ok a, w)

  unfoldable pub fail : String → M C F A
  fail e w = (err e, w)

  unfoldable pub call : Call C A → M C F A
  call f w = let (a, c) = f w.cloud in (ok a, record w { cloud = c })

  -- a call whose answer is a `Result` that `?` takes apart
  unfoldable pub refused : Result String A → M C F A
  refused (ok a) w = (ok a, w)
  refused (err e) w = (err e, w)

  unfoldable pub answer : Option String → (Db F → A) → M C F A
  answer none f w = (ok (f w.db), w)
  answer (some e) f w = (err e, w)

  -- a SELECT
  unfoldable pub query : System C → (Db F → A) → M C F A
  unfolding answer
  query sys f w = let (fault, c) = sys.fault w.cloud in answer fault f (record w { cloud = c })

  -- `fetch_one` is an error where there is no row.
  unfoldable pub or_no_row : Option A → M C F A
  or_no_row none w = (err "no rows returned by a query that expected to return at least one row", w)
  or_no_row (some a) w = (ok a, w)

module _ {C F : Type 0} where
  unfoldable pub write : Option String → (Db F → Db F) → M C F Unit
  write none f w = (ok tt, record w { db = f w.db })
  write (some e) f w = (err e, w)

  -- an INSERT, UPDATE or DELETE
  unfoldable pub execute : System C → (Db F → Db F) → M C F Unit
  unfolding write
  execute sys f w = let (fault, c) = sys.fault w.cloud in write fault f (record w { cloud = c })

module _ {C F A B : Type 0} where
  abbrev pub continue : Result String A → (A → M C F B) → M C F B
  continue (ok a) f w = f a w
  continue (err e) f w = (err e, w)

  infixl 10 ◌>>=◌ ◌>>◌
  unfoldable pub ◌>>=◌ : M C F A → (A → M C F B) → M C F B
  unfolding pure fail call refused query or_no_row execute
  ◌>>=◌ m f w = let (r, w') = m w in continue r f w'

  abbrev pub ◌>>◌ : M C F A → M C F B → M C F B
  m >> n = m >>= λ _. n

  -- `let Some(x) = o else { … }`
  unfoldable pub let_some : Option A → M C F B → (A → M C F B) → M C F B
  let_some none missing found = missing
  let_some (some a) missing found = found a

module _ {C F E A B : Type 0} where
  -- `match r { Ok(x) => …, Err(e) => … }`
  unfoldable pub on_result : Result E A → (A → M C F B) → (E → M C F B) → M C F B
  on_result (ok a) good bad = good a
  on_result (err e) good bad = bad e

module _ {C F A : Type 0} where
  -- a call whose answer is handed on with `?`
  unfoldable pub try_call : Call C (Result String A) → M C F A
  unfolding call refused
  try_call f w = let (r, c) = f w.cloud in refused r (record w { cloud = c })
