-- ===== src/Http.antt =====
-- How a handler of the API is written (src/api): an action that ends in an answer, or in an error
-- with its HTTP status.
use kube_shim.Prelude.{ℕ, String}
use kube_shim.Program.{Result, ok, err, World, M}

-- an HTTP status and a text
abbrev pub ErrorResponse : Type 0
ErrorResponse = ℕ × String

abbrev pub Handler : Type 0 → Type 0 → Type 0 → Type 0
Handler C F A = World C F → Result ErrorResponse A × World C F

-- `map_err(|e| (StatusCode::INTERNAL_SERVER_ERROR, e.to_string()))`
unfoldable pub internal_result : {A : Type 0} → Result String A → Result ErrorResponse A
internal_result (ok a) = ok a
internal_result (err e) = err (500, e)

unfoldable pub of_action : {C F A : Type 0} → M C F A → Handler C F A
unfolding internal_result
of_action m w = let (r, w') = m w in (internal_result r, w')

module _ {C F A B : Type 0} where
  unfoldable pub go_on : Result ErrorResponse A → (A → Handler C F B) → Handler C F B
  go_on (ok a) f w = f a w
  go_on (err e) f w = (err e, w)

  -- `?`
  unfoldable pub next : Handler C F A → (A → Handler C F B) → Handler C F B
  unfolding go_on
  next h f w = let (r, w') = h w in go_on r f w'
