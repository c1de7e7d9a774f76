-- ===== src/Auth.antt =====
-- src/auth.rs: token_is_valid and the middleware require_bearer_token; of src/config.rs ApiToken and
-- ensure_has_valid_api_token. `ct_eq` of the crate subtle is equality of bytes; a time is a number of
-- whatever unit.
use kube_shim.Prelude.{
  ◌≡◌, ◌↔◌, refl, Bool, true, false, ◌&&◌, ◌||◌, any, Option, none, some, String, List, [], ◌∷◌,
  str_eq, str_eq_iff, if◌then◌else◌, Bool-cases, inl, inr, ◌⊎◌, ◌<>◌, ◌==◌,
}
use Prim.Native.Char.{code}
use kube_shim.Prelude.Int.{ℤ, ltb_ℤ}
use kube_shim.Program.{Result, ok, err, Call}

pub record ApiToken : Type 0 where
  pub token : String
  pub expires_at : Option ℤ

is_before : ℤ → Option ℤ → Bool
is_before now (some expires_at) = ltb_ℤ now expires_at
is_before now none = true

-- `ApiToken::is_valid_at`
unfoldable pub is_valid_at : ApiToken → ℤ → Bool
unfolding is_before
is_valid_at t now = is_before now t.expires_at

-- every entry is compared, also after one has matched
match_entries : String → ℤ → List ApiToken → Bool → Bool
match_entries presented now [] matched = matched
match_entries presented now (entry ∷ tokens) matched =
    match_entries presented now tokens
      (matched || (str_eq entry.token presented && is_valid_at entry now))

unfoldable pub token_is_valid : List ApiToken → String → ℤ → Bool
unfolding match_entries
token_is_valid tokens presented now = match_entries presented now tokens false

abbrev pub no_valid_token : String
no_valid_token =
    "server.api_tokens has no currently-valid token (list is empty, or every entry has expired) -- "
    <> "refusing to start with no effective authentication"

unfoldable pub ensure_has_valid_api_token : List ApiToken → ℤ → Result String Unit
ensure_has_valid_api_token api_tokens now =
    if any (λ t. is_valid_at t now) api_tokens then ok tt else err no_valid_token

-- `str::strip_prefix`
strip_prefix : String → String → Option String
strip_prefix String.[] s = some s
strip_prefix (String.◌∷◌ p ps) String.[] = none
strip_prefix (String.◌∷◌ p ps) (String.◌∷◌ c s) =
    if code p == code c then strip_prefix ps s else none

-- the token of the header Authorization, where that is text
unfoldable pub presented_token : Option String → Option String
unfolding strip_prefix
presented_token none = none
presented_token (some value) = strip_prefix "Bearer " value

pub data Answer (A : Type 0) : Type 0 where
  unauthorized : Answer A
  handed_on : A → Answer A

module _ {C A : Type 0} (now : Call C ℤ) (run_next : Call C A) where
  unfoldable pub run_if : Bool → Call C (Answer A)
  run_if true c = let (response, c') = run_next c in (handed_on response, c')
  run_if false c = (unauthorized, c)

  unfoldable pub check_token : List ApiToken → Option String → Call C (Answer A)
  unfolding run_if token_is_valid
  check_token tokens none c = (unauthorized, c)
  check_token tokens (some token) c =
      let (time, c') = now c in run_if (token_is_valid tokens token time) c'

  unfoldable pub require_bearer_token : List ApiToken → Option String → Call C (Answer A)
  unfolding check_token presented_token
  require_bearer_token tokens authorization = check_token tokens (presented_token authorization)

-- an entry lets a presented text in
abbrev pub LetsIn : String → ℤ → ApiToken → Type 0
LetsIn presented now t = (t.token ≡ presented) × (is_valid_at t now ≡ true)

-- some member of a list
abbrev pub Exists : (ApiToken → Type 0) → List ApiToken → Type 0
Exists P [] = ⊥
Exists P (t ∷ tokens) = P t ⊎ Exists P tokens

module _ (presented : String) (now : ℤ) where
  entry_iff :
      (t : ApiToken) (matched : Bool)
      → ((matched || (str_eq t.token presented && is_valid_at t now)) ≡ true)
        ↔ ((matched ≡ true) ⊎ LetsIn presented now t)
  entry_iff t true = (λ h. inl refl, λ h. refl)
  entry_iff t false = elim (Bool-cases (str_eq t.token presented)) [
    | inl e ↦ rw e (
      λ valid. inr ((str_eq_iff t.token presented).0 e, valid),
      λ h. elim h [ inl f ↦ cc | inr g ↦ g.1 ],
    )
    | inr e ↦
        rw e (
          λ f. cc,
          λ h. elim h [ inl f ↦ f | inr g ↦ cc (e, (str_eq_iff t.token presented).1 g.0) ],
        )
  ]

  match_entries_iff :
      (tokens : List ApiToken) (matched : Bool)
      → (match_entries presented now tokens matched ≡ true)
        ↔ ((matched ≡ true) ⊎ Exists (LetsIn presented now) tokens)
  unfolding match_entries
  match_entries_iff [] matched = (λ h. inl h, λ h. elim h [ inl e ↦ e | inr f ↦ absurd f ])
  match_entries_iff (t ∷ tokens) matched =
      let one = entry_iff t matched in
      let rest =
        match_entries_iff tokens (matched || (str_eq t.token presented && is_valid_at t now)) in
      (
        λ h. elim (rest.0 h) [
          | inl e ↦ elim (one.0 e) [ inl m ↦ inl m | inr l ↦ inr (inl l) ]
          | inr later ↦ inr (inr later)
        ],
        λ h. elim h [
          | inl m ↦ rest.1 (inl (one.1 (inl m)))
          | inr (inl l) ↦ rest.1 (inl (one.1 (inr l)))
          | inr (inr later) ↦ rest.1 (inr later)
        ],
      )

  -- A token is valid exactly when some configured token is that text and has not expired.
  pub token_is_valid_iff :
      (tokens : List ApiToken)
      → (token_is_valid tokens presented now ≡ true) ↔ Exists (LetsIn presented now) tokens
  unfolding token_is_valid
  token_is_valid_iff tokens =
      let found = match_entries_iff tokens false in
      (λ h. elim (found.0 h) [ inl e ↦ cc | inr x ↦ x ], λ h. found.1 (inr h))

  ensure_has_valid_api_token_iff :
      (tokens : List ApiToken)
      → (ensure_has_valid_api_token tokens now ≡ ok tt)
        ↔ Exists (λ t. is_valid_at t now ≡ true) tokens
  unfolding ensure_has_valid_api_token
  ensure_has_valid_api_token_iff [] = (λ h. cc, λ h. absurd h)
  ensure_has_valid_api_token_iff (t ∷ tokens) = elim (Bool-cases (is_valid_at t now)) [
    | inl e ↦ rw e (λ h. inl refl, λ h. refl)
    | inr e ↦
        let rest = ensure_has_valid_api_token_iff tokens in
        rw e (λ h. inr (rest.0 h), λ h. elim h [ inl f ↦ cc | inr x ↦ rest.1 x ])
  ]

module _ {C A : Type 0} (now : Call C ℤ) (run_next : Call C A) where
  abbrev pub Carries : List ApiToken → Option String → C → Type 0
  Carries tokens presented c =
      (token : String) × (presented ≡ some token) × Exists (LetsIn token (now c).0) tokens

  check_token_iff :
      (tokens : List ApiToken) (presented : Option String) (c : C)
      → let done = check_token now run_next tokens presented c in
        (Carries tokens presented c × (done.0 ≡ handed_on (run_next (now c).1).0))
        ⊎ (¬ Carries tokens presented c × (done.0 ≡ unauthorized))
  unfolding check_token run_if
  check_token_iff tokens none c = inr (λ h. cc (h.1), refl)
  check_token_iff tokens (some token) c =
      let valid = token_is_valid_iff token (now c).0 tokens in
      elim (Bool-cases (token_is_valid tokens token (now c).0)) [
        | inl f ↦ rw f (inl ((token, refl, valid.0 f), refl))
        | inr f ↦
            rw f (inr (λ h. cc (f, (token_is_valid_iff h.0 (now c).0 tokens).1 h.2, h.1), refl))
      ]

  -- A request whose header carries a configured token that has not expired is handed on to what
  -- follows; every other request is answered as unauthorized.
  pub require_bearer_token_iff :
      (tokens : List ApiToken) (authorization : Option String) (c : C)
      → let done = require_bearer_token now run_next tokens authorization c in
        (Carries tokens (presented_token authorization) c
          × (done.0 ≡ handed_on (run_next (now c).1).0))
        ⊎ (¬ Carries tokens (presented_token authorization) c × (done.0 ≡ unauthorized))
  unfolding require_bearer_token
  require_bearer_token_iff tokens authorization c =
      check_token_iff tokens (presented_token authorization) c
