-- ===== src/Env/Expand/Unique.antt =====
-- The expansion rules of Kubernetes leave `expand` of src/container_env.rs no choice.
use Prim.Native.Char.{Char, code}
use Prim.Native.String.append
use Prim.Native.String.count
use Prim.Native.String.{count}
use kube_shim.Prelude.{
  ℕ, zero, suc, ◌≤◌, ◌≡◌, ◌↔◌, refl, ap, sym, ◌∙◌, inl, inr, false, none, some, String, ◌==◌, ◌<>◌,
  arith, if◌then◌else◌, Bool-cases, Option-cases,
}
use kube_shim.Env.{Variables, lookup, split_at}
use kube_shim.Env.Expand.{variable, group, dollar, expand_rounds, expand}
use kube_shim.Env.Expand.Grammar.{
  Lacks, IsLone, Expands, at_end, plain, escaped, defined, undefined, unclosed, lone, count-append,
  as_prefix, expand-Expands,
}

-- a text of one character before a text
one_before : (d : Char) (s : String) → String.◌∷◌ d "" <> s ≡ String.◌∷◌ d s
one_before d s = append.cons d "" s ∙ ap (String.◌∷◌ d) (append.nil s)

split_at-before :
    (d : Char) (before after : String)
    → Lacks (code d) before
    → split_at (code d) (before <> (String.◌∷◌ d "" <> after)) ≡ some (before, after)
unfolding split_at
split_at-before d String.[] after h =
    rw (append.nil (String.◌∷◌ d "" <> after), one_before d after) (ground arith)
split_at-before d (String.◌∷◌ c s) after h =
    rw (append.cons c s (String.◌∷◌ d "" <> after), h.0, split_at-before d s after h.1) refl

split_at-lacking : (n : ℕ) (s : String) → Lacks n s → split_at n s ≡ none
unfolding split_at
split_at-lacking n String.[] h = refl
split_at-lacking n (String.◌∷◌ c s) h = rw (h.0, split_at-lacking n s h.1) refl

-- a round that begins with a `$`
round-dollar :
    (fuel : ℕ) (env : Variables) (after : String)
    → expand_rounds (suc fuel) ("$" <> after) env
      ≡ (dollar env after).0 <> expand_rounds fuel (dollar env after).1 env
unfolding expand_rounds split_at
round-dollar fuel env after =
    rw (one_before "$" after)
      (append.nil ((dollar env after).0 <> expand_rounds fuel (dollar env after).1 env))

-- a round that begins with another character
round-plain :
    (fuel : ℕ) (env : Variables) (c : Char) (s : String)
    → (code c == b'$') ≡ false
    → expand_rounds (suc fuel) (String.◌∷◌ c s) env ≡ String.◌∷◌ c (expand_rounds (suc fuel) s env)
unfolding expand_rounds split_at
round-plain fuel env c s h = elim (Option-cases (split_at b'$' s)) [
  | inl e ↦ rw (expand_rounds, split_at, h, e) refl
  | inr ((before, after), e) ↦ rw (expand_rounds, split_at, h, e) (append.cons c before _)
]

dollar-lone : (env : Variables) (s : String) → IsLone s → dollar env s ≡ ("$", s)
unfolding dollar
dollar-lone env String.[] h = refl
dollar-lone env (String.◌∷◌ c s) h = rw (h.0, h.1) refl

dollar-group :
    (env : Variables) (s : String) → dollar env ("(" <> s) ≡ group env s (split_at b')' s)
unfolding dollar
dollar-group env s = rw (one_before "(" s) refl

dollar-dollar : (env : Variables) (s : String) → dollar env ("$" <> s) ≡ ("$", s)
unfolding dollar
dollar-dollar env s = rw (one_before "$" s) refl

count-dollar : (d : Char) (s : String) → count (String.◌∷◌ d "" <> s) ≡ suc (count s)
count-dollar d s = rw (one_before d s, count.cons d s) refl

-- a rule for a `$`: what is written, and a rest that is expanded
from_dollar :
    (env : Variables) (after written next out : String) (fuel : ℕ)
    → dollar env after ≡ (written, next)
    → count next ≤ count after
    → ((rounds : ℕ) → count next ≤ rounds → out ≡ expand_rounds rounds next env)
    → count ("$" <> after) ≤ fuel
    → written <> out ≡ expand_rounds fuel ("$" <> after) env
from_dollar env after written next out zero e le f h =
    absurd (omega (arith, count-dollar "$" after))
from_dollar env after written next out (suc fuel) e le f h =
    rw (round-dollar fuel env after, e)
      (ap (λ t. written <> t) (f fuel (omega (arith, count-dollar "$" after))))

round-end : (fuel : ℕ) (env : Variables) → expand_rounds fuel "" env ≡ ""
unfolding expand_rounds split_at
round-end zero env = refl
round-end (suc fuel) env = refl

closed :
    (env : Variables) (name s : String)
    → Lacks b')' name
    → dollar env ("(" <> (name <> (")" <> s))) ≡ (variable name (lookup name env), s)
closed env name s h = rw (dollar-group env (name <> (")" <> s)), split_at-before ")" name s h) refl

count-closed : (name s : String) → count s ≤ count ("(" <> (name <> (")" <> s)))
count-closed name s =
    rw (count-append "(" (name <> (")" <> s)), count-append name (")" <> s), count-append ")" s)
      (omega arith)

Expands-expand_rounds :
    {env : Variables} {s out : String}
    → Expands env s out
    → (fuel : ℕ) → count s ≤ fuel
    → out ≡ expand_rounds fuel s env
Expands-expand_rounds {env} at_end fuel h = sym (round-end fuel env)
Expands-expand_rounds (plain {c} {s} e r) zero h = absurd (omega (arith, count.cons c s))
Expands-expand_rounds {env} (plain {c} {s} e r) (suc fuel) h =
    ap (String.◌∷◌ c) (Expands-expand_rounds r (suc fuel) (omega (arith, count.cons c s)))
    ∙ sym (round-plain fuel env c s e)
Expands-expand_rounds {env} (escaped {s} {out} r) fuel h =
    from_dollar env ("$" <> s) "$" s out fuel (dollar-dollar env s)
      (omega (arith, count-dollar "$" s)) (Expands-expand_rounds r) h
Expands-expand_rounds {env} (defined name {value} {s} {out} lacks e r) fuel h =
    from_dollar env ("(" <> (name <> (")" <> s))) value s out fuel
      (closed env name s lacks ∙ ap (λ o. (variable name o, s)) e) (count-closed name s)
      (Expands-expand_rounds r) h
Expands-expand_rounds {env} (undefined name {s} {out} lacks e r) fuel h =
    from_dollar env ("(" <> (name <> (")" <> s))) ("$(" <> (name <> ")")) s out fuel
      (closed env name s lacks ∙ ap (λ o. (variable name o, s)) e) (count-closed name s)
      (Expands-expand_rounds r) h
Expands-expand_rounds {env} (unclosed {s} {out} lacks r) fuel h =
    from_dollar env ("(" <> s) "$(" s out fuel
      (rw (dollar-group env s, split_at-lacking b')' s lacks) refl)
      (omega (arith, count-dollar "(" s)) (Expands-expand_rounds r) h
Expands-expand_rounds {env} (lone {s} {out} is_lone r) fuel h =
    from_dollar env s "$" s out fuel (dollar-lone env s is_lone) (omega arith)
      (Expands-expand_rounds r) h

-- By the rules a text stands for exactly one text, and `expand` gives it: for every input, the
-- end of the text inside a `$(` included.
pub expand_iff :
    (input out : String) (env : Variables) → Expands env input out ↔ (out ≡ expand input env)
unfolding expand
expand_iff input out env = (
  (λ r. Expands-expand_rounds r (count input) (omega arith)),
  (λ e. rw e (expand-Expands input env)),
)

-- a text in which every `$` is written twice
pub doubled : String → String
doubled String.[] = ""
doubled (String.◌∷◌ c s) =
    if code c == b'$' then "$" <> ("$" <> doubled s) else String.◌∷◌ c (doubled s)

doubled-Expands : (env : Variables) (s : String) → Expands env (doubled s) s
unfolding doubled
doubled-Expands env String.[] = at_end
doubled-Expands env (String.◌∷◌ c s) = elim (Bool-cases (code c == b'$')) [
  | inl e ↦ rw (e, as_prefix "$" c s e) (escaped (doubled-Expands env s))
  | inr e ↦ rw e (plain e (doubled-Expands env s))
]

-- A text in which every `$` is doubled is expanded to the text itself, whatever variables there are.
pub expand-doubled : (s : String) (env : Variables) → expand (doubled s) env ≡ s
expand-doubled s env = sym ((expand_iff (doubled s) s env).0 (doubled-Expands env s))
