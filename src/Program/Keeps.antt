-- ===== src/Program/Keeps.antt =====
-- Invariants of actions, whether they return or end in an error: one rule for each way to build an
-- action.
use kube_shim.Prelude.{◌≡◌, refl, Bool, true, false, Option, none, some, String, if◌then◌else◌}
use kube_shim.Db.{Db}
use kube_shim.Program.{
  Result, ok, err, World, M, Call, System, pure, call, refused, try_call, answer, query, or_no_row,
  write, execute, continue, ◌>>=◌, let_some, on_result,
}

pub record Keeps {C F A : Type 0} (P : World C F → Type 0) (m : M C F A) : Type 0 where
  pub at : (w : World C F) → P w → P (m w).1

-- an invariant of the tables
pub record OnDb {C F : Type 0} (Q : Db F → Type 0) (w : World C F) : Type 0 where
  pub holds : Q w.db

-- an invariant of all that lies outside
pub record OnCloud {C F : Type 0} (Q : C → Type 0) (w : World C F) : Type 0 where
  pub holds : Q w.cloud

module _ {C F A : Type 0} {P : World C F → Type 0} where
  pub Keeps-pure : (a : A) → Keeps P (pure a)
  unfolding pure
  Keeps-pure a = record { at = λ w h. h }

  pub Keeps-or_no_row : (o : Option A) → Keeps P (or_no_row o)
  unfolding or_no_row
  Keeps-or_no_row none = record { at = λ w h. h }
  Keeps-or_no_row (some a) = record { at = λ w h. h }

  pub Keeps-if :
      (test : Bool) (good other : M C F A)
      → (test ≡ true → Keeps P good)
      → (test ≡ false → Keeps P other)
      → Keeps P (if test then good else other)
  Keeps-if true good other kept kept_other = kept refl
  Keeps-if false good other kept kept_other = kept_other refl

  Keeps-refused : (r : Result String A) → Keeps P (refused r)
  unfolding refused
  Keeps-refused (ok a) = record { at = λ w h. h }
  Keeps-refused (err e) = record { at = λ w h. h }

  Keeps-answer : (o : Option String) (f : Db F → A) → Keeps P (answer o f)
  unfolding answer
  Keeps-answer none f = record { at = λ w h. h }
  Keeps-answer (some e) f = record { at = λ w h. h }

module _ {C F A B : Type 0} {P : World C F → Type 0} where
  Keeps-continue :
      (r : Result String A) (f : A → M C F B) → ((a : A) → Keeps P (f a)) → Keeps P (continue r f)
  Keeps-continue (ok a) f kf = kf a
  Keeps-continue (err e) f kf = record { at = λ w h. h }

  pub Keeps-bind :
      (first : M C F A) (rest : A → M C F B)
      → Keeps P first
      → ((a : A) → Keeps P (rest a))
      → Keeps P (first >>= rest)
  unfolding ◌>>=◌
  Keeps-bind first rest k kr = record {
    at = λ w h. (Keeps-continue (first w).0 rest kr).at (first w).1 (k.at w h);
  }

  pub Keeps-let_some :
      (o : Option A) (m : M C F B) (f : A → M C F B)
      → Keeps P m
      → ((a : A) → Keeps P (f a))
      → Keeps P (let_some o m f)
  unfolding let_some
  Keeps-let_some none m f km kf = km
  Keeps-let_some (some a) m f km kf = kf a

  -- where the answer is needed in the proof
  pub Keeps-let_some_eq :
      (o : Option A) (m : M C F B) (f : A → M C F B)
      → Keeps P m
      → ((a : A) → o ≡ some a → Keeps P (f a))
      → Keeps P (let_some o m f)
  unfolding let_some
  Keeps-let_some_eq none m f km kf = km
  Keeps-let_some_eq (some a) m f km kf = kf a refl

module _ {C F E A B : Type 0} {P : World C F → Type 0} where
  pub Keeps-on_result :
      (r : Result E A) (good : A → M C F B) (bad : E → M C F B)
      → ((a : A) → Keeps P (good a))
      → ((e : E) → Keeps P (bad e))
      → Keeps P (on_result r good bad)
  unfolding on_result
  Keeps-on_result (ok a) good bad kg kb = kg a
  Keeps-on_result (err e) good bad kg kb = kb e

-- Calls leave the tables alone.
module _ {C F A : Type 0} {Q : Db F → Type 0} where
  pub Keeps-call : (f : Call C A) → Keeps (OnDb {C = C} Q) (call f)
  unfolding call
  Keeps-call f = record { at = λ w h. record { holds = h.holds } }

  pub Keeps-try_call : (f : Call C (Result String A)) → Keeps (OnDb {C = C} Q) (try_call f)
  unfolding try_call
  Keeps-try_call f = record {
    at = λ w h.
        (Keeps-refused {P = OnDb Q} (f w.cloud).0).at (record w { cloud = (f w.cloud).1 })
          (record { holds = h.holds });
  }

  pub Keeps-query : (sys : System C) (f : Db F → A) → Keeps (OnDb {C = C} Q) (query sys f)
  unfolding query
  Keeps-query sys f = record {
    at = λ w h.
        (Keeps-answer {P = OnDb Q} (sys.fault w.cloud).0 f).at
          (record w { cloud = (sys.fault w.cloud).1 }) (record { holds = h.holds });
  }

module _ {C F : Type 0} {Q : Db F → Type 0} where
  Keeps-write :
      (o : Option String) (f : Db F → Db F)
      → ((db : Db F) → Q db → Q (f db))
      → Keeps (OnDb {C = C} Q) (write o f)
  unfolding write
  Keeps-write none f k = record { at = λ w h. record { holds = k w.db h.holds } }
  Keeps-write (some e) f k = record { at = λ w h. h }

  pub Keeps-execute :
      (sys : System C) (f : Db F → Db F)
      → ((db : Db F) → Q db → Q (f db))
      → Keeps (OnDb {C = C} Q) (execute sys f)
  unfolding execute
  Keeps-execute sys f k = record {
    at = λ w h.
        (Keeps-write (sys.fault w.cloud).0 f k).at (record w { cloud = (sys.fault w.cloud).1 })
          (record { holds = h.holds });
  }

-- Statements leave the outside alone, but for the answer whether they fail.
pub record CallKeeps {C A : Type 0} (Q : C → Type 0) (f : Call C A) : Type 0 where
  pub at : (c : C) → Q c → Q (f c).1

module _ {C F A : Type 0} {Q : C → Type 0} where
  pub CloudKeeps-call : (f : Call C A) → CallKeeps Q f → Keeps (OnCloud {F = F} Q) (call f)
  unfolding call
  CloudKeeps-call f k = record { at = λ w h. record { holds = k.at w.cloud h.holds } }

  pub CloudKeeps-try_call :
      (f : Call C (Result String A)) → CallKeeps Q f → Keeps (OnCloud {F = F} Q) (try_call f)
  unfolding try_call
  CloudKeeps-try_call f k = record {
    at = λ w h.
        (Keeps-refused {P = OnCloud Q} (f w.cloud).0).at (record w { cloud = (f w.cloud).1 })
          (record { holds = k.at w.cloud h.holds });
  }

  pub CloudKeeps-query :
      (sys : System C) (f : Db F → A)
      → CallKeeps Q sys.fault
      → Keeps (OnCloud {F = F} Q) (query sys f)
  unfolding query
  CloudKeeps-query sys f k = record {
    at = λ w h.
        (Keeps-answer {P = OnCloud Q} (sys.fault w.cloud).0 f).at
          (record w { cloud = (sys.fault w.cloud).1 }) (record { holds = k.at w.cloud h.holds });
  }

module _ {C F : Type 0} {Q : C → Type 0} where
  CloudKeeps-write : (o : Option String) (f : Db F → Db F) → Keeps (OnCloud {F = F} Q) (write o f)
  unfolding write
  CloudKeeps-write none f = record { at = λ w h. record { holds = h.holds } }
  CloudKeeps-write (some e) f = record { at = λ w h. h }

  pub CloudKeeps-execute :
      (sys : System C) (f : Db F → Db F)
      → CallKeeps Q sys.fault
      → Keeps (OnCloud {F = F} Q) (execute sys f)
  unfolding execute
  CloudKeeps-execute sys f k = record {
    at = λ w h.
        (CloudKeeps-write (sys.fault w.cloud).0 f).at (record w { cloud = (sys.fault w.cloud).1 })
          (record { holds = k.at w.cloud h.holds });
  }

-- how an action is put together
pub ruleset keeps_rules =
    (Keeps-pure, Keeps-or_no_row, Keeps-if, Keeps-bind, Keeps-let_some, Keeps-on_result)

-- what it does, for an invariant of the tables
pub ruleset table_rules = (keeps_rules, Keeps-call, Keeps-try_call, Keeps-query)
