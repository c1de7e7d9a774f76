-- ===== src/Program/Yields.antt =====
-- What holds of the answers of an action, when it does not end in an error.
use kube_shim.Prelude.{◌≡◌, refl, sym, Bool, true, false, Option, none, some, String, if◌then◌else◌}
use kube_shim.Db.{Db}
use kube_shim.Program.{
  Result, ok, err, World, M, System, pure, answer, query, continue, ◌>>=◌, let_some, on_result,
}
use kube_shim.Program.Keeps.{Keeps}

pub record Yields {C F A : Type 0} (R : A → Type 0) (m : M C F A) : Type 0 where
  pub at : (w : World C F) (a : A) → (m w).0 ≡ ok a → R a

ok_value : {A : Type 0} → A → Result String A → A
ok_value d (ok a) = a
ok_value d (err e) = d

ok-injective : {A : Type 0} (a b : A) → Path (Result String A) (ok a) (ok b) → a ≡ b
ok-injective a b h = cc

module _ {C F A : Type 0} {R : A → Type 0} where
  pub Yields-pure : (a : A) → R a → Yields {C = C} {F = F} R (pure a)
  unfolding pure
  Yields-pure a r = record { at = λ w b e. rw (ok-injective a b e) at r }

  pub Yields-if :
      (b : Bool) (m n : M C F A) → Yields R m → Yields R n → Yields R (if b then m else n)
  Yields-if true m n ym yn = ym
  Yields-if false m n ym yn = yn

pub Yields-mono :
    {C F A : Type 0} {R S : A → Type 0} (m : M C F A)
    → ((a : A) → R a → S a)
    → Yields R m
    → Yields S m
Yields-mono m f y = record { at = λ w a e. f a (y.at w a e) }

module _ {C F A B : Type 0} {R : B → Type 0} where
  Yields-continue :
      (r : Result String A) (f : A → M C F B) → ((a : A) → Yields R (f a)) → Yields R (continue r f)
  Yields-continue (ok a) f y = y a
  Yields-continue (err e) f y = record { at = λ w b h. cc }

  pub Yields-bind :
      (m : M C F A) (f : A → M C F B) → ((a : A) → Yields R (f a)) → Yields R (m >>= f)
  unfolding ◌>>=◌
  Yields-bind m f y = record { at = λ w b h. (Yields-continue (m w).0 f y).at (m w).1 b h }

  pub Yields-let_some :
      (o : Option A) (m : M C F B) (f : A → M C F B)
      → Yields R m
      → ((a : A) → Yields R (f a))
      → Yields R (let_some o m f)
  unfolding let_some
  Yields-let_some none m f ym yf = ym
  Yields-let_some (some a) m f ym yf = yf a

module _ {C F E A B : Type 0} {R : B → Type 0} where
  pub Yields-on_result :
      (r : Result E A) (good : A → M C F B) (bad : E → M C F B)
      → ((a : A) → Yields R (good a))
      → ((e : E) → Yields R (bad e))
      → Yields R (on_result r good bad)
  unfolding on_result
  Yields-on_result (ok a) good bad yg yb = yg a
  Yields-on_result (err e) good bad yg yb = yb e

module _ {C F A B : Type 0} {P : World C F → Type 0} where
  Keeps-continue :
      (r : Result String A) (f : A → M C F B)
      → ((a : A) → r ≡ ok a → Keeps P (f a))
      → Keeps P (continue r f)
  Keeps-continue (ok a) f k = k a refl
  Keeps-continue (err e) f k = record { at = λ w h. h }

  -- The rest of a block may use what the first answer is known to be.
  pub Keeps-bind-Yields :
      {R : A → Type 0} (m : M C F A) (f : A → M C F B)
      → Keeps P m
      → Yields R m
      → ((a : A) → R a → Keeps P (f a))
      → Keeps P (m >>= f)
  unfolding ◌>>=◌
  Keeps-bind-Yields m f km y kf = record {
    at = λ w h. (Keeps-continue (m w).0 f (λ a e. kf a (y.at w a e))).at (m w).1 (km.at w h);
  }

module _ {C F A B : Type 0} {P : World C F → Type 0} where
  -- the same from one world, where the answer may depend on it
  pub bind_at :
      (m : M C F A) (f : A → M C F B) (w : World C F)
      → P (m w).1
      → ((a : A) → (m w).0 ≡ ok a → Keeps P (f a))
      → P ((m >>= f) w).1
  unfolding ◌>>=◌
  bind_at m f w h kf = (Keeps-continue (m w).0 f kf).at (m w).1 h

module _ {C F A : Type 0} where
  answer_value :
      (o : Option String) (f : Db F → A) (w : World C F) (a : A)
      → (answer o f w).0 ≡ ok a
      → a ≡ f w.db
  unfolding answer
  answer_value none f w a h = sym (ok-injective (f w.db) a h)
  answer_value (some e) f w a h = cc

  -- A SELECT answers with what it reads.
  pub query_value :
      (sys : System C) (f : Db F → A) (w : World C F) (a : A)
      → (query sys f w).0 ≡ ok a
      → a ≡ f w.db
  unfolding query
  query_value sys f w a h =
      answer_value (sys.fault w.cloud).0 f (record w { cloud = (sys.fault w.cloud).1 }) a h

pub ruleset yields_rules = (Yields-pure, Yields-if, Yields-bind, Yields-let_some, Yields-on_result)
