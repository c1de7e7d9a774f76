-- ===== src/Program/Triple.antt =====
-- What an action makes of the tables, from what holds of them before: of its answer and the tables
-- after it where it returns, and of the tables where it ends in an error.
use kube_shim.Prelude.{◌≡◌, refl, Bool, true, false, Option, none, some, String, if◌then◌else◌}
use kube_shim.Db.{Db}
use kube_shim.Program.{
  Result, ok, err, World, M, Call, System, pure, fail, call, answer, query, write, execute,
  continue, ◌>>=◌, let_some,
}

module _ {F A : Type 0} (R : A → Db F → Type 0) (E : Db F → Type 0) where
  abbrev pub Post : Result String A → Db F → Type 0
  Post (ok a) db = R a db
  Post (err e) db = E db

pub record Triple {C F A : Type 0} (P : Db F → Type 0) (R : A → Db F → Type 0) (E : Db F → Type 0)
    (m : M C F A) : Type 0 where
  pub at : (w : World C F) → P w.db → Post R E (m w).0 (m w).1.db

module _ {C F A : Type 0} {P E : Db F → Type 0} {R : A → Db F → Type 0} where
  pub Triple-pure : (a : A) → ((db : Db F) → P db → R a db) → Triple {C = C} P R E (pure a)
  unfolding pure
  Triple-pure a k = record { at = λ w h. k w.db h }

  pub Triple-fail : (e : String) → ((db : Db F) → P db → E db) → Triple {C = C} P R E (fail e)
  unfolding fail
  Triple-fail e k = record { at = λ w h. k w.db h }

  pub Triple-call :
      (f : Call C A) → ((c : C) (db : Db F) → P db → R (f c).0 db) → Triple P R E (call f)
  unfolding call
  Triple-call f k = record { at = λ w h. k w.cloud w.db h }

  Triple-answer :
      (o : Option String) (f : Db F → A)
      → ((db : Db F) → P db → R (f db) db)
      → ((db : Db F) → P db → E db)
      → Triple {C = C} P R E (answer o f)
  unfolding answer
  Triple-answer none f k ke = record { at = λ w h. k w.db h }
  Triple-answer (some e) f k ke = record { at = λ w h. ke w.db h }

  pub Triple-query :
      (sys : System C) (f : Db F → A)
      → ((db : Db F) → P db → R (f db) db)
      → ((db : Db F) → P db → E db)
      → Triple P R E (query sys f)
  unfolding query
  Triple-query sys f k ke = record {
    at = λ w h.
        (Triple-answer (sys.fault w.cloud).0 f k ke).at (record w { cloud = (sys.fault w.cloud).1 })
          h;
  }

  pub Triple-if :
      (test : Bool) (m n : M C F A)
      → (test ≡ true → Triple P R E m)
      → (test ≡ false → Triple P R E n)
      → Triple P R E (if test then m else n)
  Triple-if true m n tm tn = tm refl
  Triple-if false m n tm tn = tn refl

  -- a stronger condition before, a weaker one after
  pub Triple-mono :
      {P' E' : Db F → Type 0} {R' : A → Db F → Type 0} (m : M C F A)
      → Triple P' R' E' m
      → ((db : Db F) → P db → P' db)
      → ((a : A) (db : Db F) → R' a db → R a db)
      → ((db : Db F) → E' db → E db)
      → Triple P R E m
  Triple-mono m t p r e = record { at = λ w h. weaken (m w).0 (m w).1.db r e (t.at w (p w.db h)) }
    where
      weaken :
          {R' : A → Db F → Type 0} {E' : Db F → Type 0} (x : Result String A) (db : Db F)
          → ((a : A) (db : Db F) → R' a db → R a db)
          → ((db : Db F) → E' db → E db)
          → Post R' E' x db
          → Post R E x db
      weaken (ok a) db r e h = r a db h
      weaken (err s) db r e h = e db h

module _ {C F : Type 0} {P E : Db F → Type 0} {R : Unit → Db F → Type 0} where
  Triple-write :
      (o : Option String) (f : Db F → Db F)
      → ((db : Db F) → P db → R tt (f db))
      → ((db : Db F) → P db → E db)
      → Triple {C = C} P R E (write o f)
  unfolding write
  Triple-write none f k ke = record { at = λ w h. k w.db h }
  Triple-write (some e) f k ke = record { at = λ w h. ke w.db h }

  pub Triple-execute :
      (sys : System C) (f : Db F → Db F)
      → ((db : Db F) → P db → R tt (f db))
      → ((db : Db F) → P db → E db)
      → Triple P R E (execute sys f)
  unfolding execute
  Triple-execute sys f k ke = record {
    at = λ w h.
        (Triple-write (sys.fault w.cloud).0 f k ke).at (record w { cloud = (sys.fault w.cloud).1 })
          h;
  }

module _ {C F A B : Type 0} {E : Db F → Type 0} {R : B → Db F → Type 0} where
  pub Triple-continue :
      {Q : A → Db F → Type 0} (r : Result String A) (f : A → M C F B) (w : World C F)
      → Post Q E r w.db
      → ((a : A) → Triple (Q a) R E (f a))
      → Post R E (continue r f w).0 (continue r f w).1.db
  Triple-continue (ok a) f w h t = (t a).at w h
  Triple-continue (err e) f w h t = h

module _ {C F A B : Type 0} {P E : Db F → Type 0} {R : B → Db F → Type 0} where
  pub Triple-bind :
      {Q : A → Db F → Type 0} (m : M C F A) (f : A → M C F B)
      → Triple P Q E m
      → ((a : A) → Triple (Q a) R E (f a))
      → Triple P R E (m >>= f)
  unfolding ◌>>=◌
  Triple-bind m f tm tf = record { at = λ w h. Triple-continue (m w).0 f (m w).1 (tm.at w h) tf }

  pub Triple-let_some :
      (o : Option A) (m : M C F B) (f : A → M C F B)
      → (o ≡ none → Triple P R E m)
      → ((a : A) → o ≡ some a → Triple P R E (f a))
      → Triple P R E (let_some o m f)
  unfolding let_some
  Triple-let_some none m f tm tf = tm refl
  Triple-let_some (some a) m f tm tf = tf a refl

module _ {C F A B : Type 0} (E : Db F → Type 0) (R : B → Db F → Type 0) where
  found :
      (o : Option String) (f : Db F → Option A) (x : A) (m : M C F B) (g : A → M C F B)
      (w : World C F)
      → f w.db ≡ some x
      → Post R E (g x w).0 (g x w).1.db
      → E w.db
      → Post R E
          (continue (answer {C = C} o f w).0 (λ a. let_some a m g) (answer o f w).1).0
          (continue (answer {C = C} o f w).0 (λ a. let_some a m g) (answer o f w).1).1.db
  unfolding answer let_some
  found none f x m g w e h he = rw e h
  found (some s) f x m g w e h he = he

module _ {C F A B : Type 0} {P E : Db F → Type 0} {R : B → Db F → Type 0} where
  -- a SELECT whose answer is known
  pub Triple-found :
      (sys : System C) (f : Db F → Option A) (x : A) (m : M C F B) (g : A → M C F B)
      → ((db : Db F) → P db → f db ≡ some x)
      → ((db : Db F) → P db → E db)
      → Triple P R E (g x)
      → Triple P R E (query sys f >>= λ a. let_some a m g)
  unfolding query ◌>>=◌
  Triple-found sys f x m g k ke t = record {
    at = λ w h.
        let w' = record w { cloud = (sys.fault w.cloud).1 } in
        found E R (sys.fault w.cloud).0 f x m g w' (k w.db h) (t.at w' h) (ke w.db h);
  }

module _ {C F A : Type 0} where
  -- nothing is asked of the action
  pub Triple-any : (m : M C F A) → Triple (λ _. Unit) (λ _ _. Unit) (λ _. Unit) m
  Triple-any m = record { at = λ w h. any (m w).0 (m w).1.db }
    where
      any : (r : Result String A) (db : Db F) → Post (λ _ _. Unit) (λ _. Unit) r db
      any (ok a) db = tt
      any (err e) db = tt

  -- what does not speak of the tables stays true
  pub Triple-frame :
      {P E : Db F → Type 0} {R : A → Db F → Type 0} (K : Type 0) (m : M C F A)
      → Triple P R E m
      → Triple (λ db. P db × K) (λ a db. R a db × K) E m
  Triple-frame K m t = record { at = λ w h. framed _ _ (m w).0 (m w).1.db h.1 (t.at w h.0) }
    where
      framed :
          (E : Db F → Type 0) (R : A → Db F → Type 0) (r : Result String A) (db : Db F)
          → K
          → Post R E r db
          → Post (λ a db. R a db × K) E r db
      framed E R (ok a) db k h = (h, k)
      framed E R (err e) db k h = h
