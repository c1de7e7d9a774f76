-- ===== src/Env/Expand.antt =====
-- `expand` of src/container_env.rs: `$(NAME)` in a text.
pub mod Grammar
pub mod Unique
use Prim.Native.Char.{code}
use Prim.Native.String.{count}
use kube_shim.Prelude.{
  ℕ, zero, suc, Bool, true, false, Option, none, some, String, ◌==◌, ◌<>◌, if◌then◌else◌,
}
use kube_shim.Env.{Variables, lookup, split_at}

-- the text for `$(name)`
abbrev variable : String → Option String → String
variable name (some value) = value
variable name none = "$(" <> (name <> ")")

-- what is written for a `$(`, and where the text goes on
abbrev pub group : Variables → String → Option (String × String) → String × String
group env inner (some (name, rest)) = (variable name (lookup name env), rest)
group env inner none = ("$(", inner)

-- what is written for a `$`, and where the text goes on
unfoldable pub dollar : Variables → String → String × String
dollar env String.[] = ("$", "")
dollar env (String.◌∷◌ c s) =
    if code c == b'$'
    then ("$", s)
    else if code c == b'('
    then group env s (split_at b')' s)
    else ("$", String.◌∷◌ c s)

-- the rounds of the loop: one for each `$`
unfoldable pub expand_rounds : ℕ → String → Variables → String
expand_rounds zero rest env = rest
expand_rounds (suc fuel) rest env = elim (split_at b'$' rest) [
  | none ↦ rest
  | some (before, after) ↦
      let (written, next) = dollar env after in before <> (written <> expand_rounds fuel next env)
]

-- A round takes at least the `$`, so there are fewer rounds than characters.
unfoldable pub expand : String → Variables → String
unfolding expand_rounds
expand input env = expand_rounds (count input) input env
