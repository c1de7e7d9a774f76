-- ===== src/Env/Expand/Grammar.antt =====
-- `expand` of src/container_env.rs against the expansion rules of Kubernetes.
use Prim.Native.Char.{Char, code}
use Prim.Native.String.append
use Prim.Native.String.count
use Prim.Native.String.{count}
use text.Mathlib.TextEquality.{Char-path}
use kube_shim.Prelude.{
  ℕ, zero, suc, ◌+◌, ◌≤◌, ◌<◌, ◌≡◌, ap, sym, ◌∙◌, inl, inr, true, false, Option, none, some, String,
  ◌==◌, ◌<>◌, arith, Bool-cases, Option-cases,
}
use kube_shim.Env.{Variables, lookup, split_at}
use kube_shim.Env.Expand.{dollar, expand_rounds, expand}

-- No character of the text has this number.
abbrev pub Lacks : ℕ → String → Type 0
Lacks n String.[] = Unit
Lacks n (String.◌∷◌ c s) = ((code c == n) ≡ false) × Lacks n s

-- The text begins with neither `$` nor `(`.
abbrev pub IsLone : String → Type 0
IsLone String.[] = Unit
IsLone (String.◌∷◌ c s) = ((code c == b'$') ≡ false) × ((code c == b'(') ≡ false)

-- The rules: a text and what it stands for.
pub data Expands (env : Variables) : String → String → Type 0 where
  at_end : Expands env "" ""
  plain :
      {c : Char} {s out : String}
      → (code c == b'$') ≡ false
      → Expands env s out
      → Expands env (String.◌∷◌ c s) (String.◌∷◌ c out)
  escaped : {s out : String} → Expands env s out → Expands env ("$" <> ("$" <> s)) ("$" <> out)
  defined :
      (name : String) {value s out : String}
      → Lacks b')' name
      → lookup name env ≡ some value
      → Expands env s out
      → Expands env ("$" <> ("(" <> (name <> (")" <> s)))) (value <> out)
  undefined :
      (name : String) {s out : String}
      → Lacks b')' name
      → lookup name env ≡ none
      → Expands env s out
      → Expands env ("$" <> ("(" <> (name <> (")" <> s)))) (("$(" <> (name <> ")")) <> out)
  unclosed :
      {s out : String}
      → Lacks b')' s
      → Expands env s out
      → Expands env ("$" <> ("(" <> s)) ("$(" <> out)
  lone : {s out : String} → IsLone s → Expands env s out → Expands env ("$" <> s) ("$" <> out)

pub as_prefix :
    (d c : Char) (s : String) → (code c == code d) ≡ true → String.◌∷◌ c s ≡ String.◌∷◌ d "" <> s
as_prefix d c s e =
    ap (λ x. String.◌∷◌ x s) (Char-path c d (ground arith))
    ∙ sym (append.cons d "" s ∙ ap (String.◌∷◌ d) (append.nil s))

-- The two parts of a text, with the character between them.
abbrev Parts : Char → String → Option (String × String) → Type 0
Parts d s none = Lacks (code d) s
Parts d s (some (before, after)) =
    Lacks (code d) before × (s ≡ before <> (String.◌∷◌ d "" <> after))

split_at-Parts : (d : Char) (s : String) → Parts d s (split_at (code d) s)
unfolding split_at
split_at-Parts d String.[] = tt
split_at-Parts d (String.◌∷◌ c s) = elim (Bool-cases (code c == code d)) [
  | inl e ↦ rw e (tt, as_prefix d c s e ∙ sym (append.nil (String.◌∷◌ d "" <> s)))
  | inr e ↦ elim (Option-cases (split_at (code d) s)) [
    | inl e' ↦ rw (e, e') (e, rw e' at (split_at-Parts d s))
    | inr ((b, a), e') ↦
        let (lacks, parts) = (rw e' at (split_at-Parts d s)) in
        rw (e, e')
          ((e, lacks), ap (String.◌∷◌ c) parts ∙ sym (append.cons c b (String.◌∷◌ d "" <> a)))
  ]
]

pub count-append : (s t : String) → count (s <> t) ≡ count s + count t
count-append String.[] t = simp (append.nil, count.nil) (omega arith)
count-append (String.◌∷◌ c s) t = simp (append.cons, count.cons, count-append s t) (omega arith)

plain_prefix :
    (env : Variables) (s t out : String)
    → Lacks b'$' s
    → Expands env t out
    → Expands env (s <> t) (s <> out)
plain_prefix env String.[] t out h r = rw (append.nil t, append.nil out) r
plain_prefix env (String.◌∷◌ c s) t out h r =
    rw (append.cons c s t, append.cons c s out) (plain h.0 (plain_prefix env s t out h.1 r))

pub count-tail : (c : Char) (s : String) → count s ≤ count (String.◌∷◌ c s)
count-tail c s = rw (count.cons c s) (omega arith)

count-after :
    (d : Char) (s before after : String)
    → s ≡ before <> (String.◌∷◌ d "" <> after)
    → count after < count s
count-after d s before after parts =
    rw
      (
        parts,
        count-append before (String.◌∷◌ d "" <> after),
        count-append (String.◌∷◌ d "") after,
        count.cons d "",
      )
      (omega arith)

lacking-Expands : (env : Variables) (s : String) → Lacks b'$' s → Expands env s s
lacking-Expands env String.[] h = at_end
lacking-Expands env (String.◌∷◌ c s) h = plain h.0 (lacking-Expands env s h.1)

-- What a `$` stands for, before what the rest of the text stands for.
dollar-Expands :
    (env : Variables) (rest : String → String) (after : String)
    → ((next : String) → count next ≤ count after → Expands env next (rest next))
    → Expands env ("$" <> after) ((dollar env after).0 <> rest (dollar env after).1)
unfolding dollar
dollar-Expands env rest String.[] f = lone tt (f "" (omega arith))
dollar-Expands env rest (String.◌∷◌ c s) f = elim (Bool-cases (code c == b'$')) [
  | inl e ↦ rw (e, as_prefix "$" c s e) (escaped (f s (count-tail c s)))
  | inr e ↦ elim (Bool-cases (code c == b'(')) [
    | inr e' ↦ rw (e, e') (lone (e, e') (f (String.◌∷◌ c s) (omega arith)))
    | inl e' ↦ elim (Option-cases (split_at b')' s)) [
      | inl n ↦
          rw (e, e', n, as_prefix "(" c s e')
            (unclosed (rw n at (split_at-Parts ")" s)) (f s (count-tail c s)))
      | inr ((name, after), p) ↦
          let (lacks, parts) = (rw p at (split_at-Parts ")" s)) in
          let r = f after (omega (arith, count-after ")" s name after parts, count-tail c s)) in
          elim (Option-cases (lookup name env)) [
            | inl u ↦ rw (e, e', p, u, as_prefix "(" c s e', parts) (undefined name lacks u r)
            | inr (value, u) ↦
                rw (e, e', p, u, as_prefix "(" c s e', parts) (defined name lacks u r)
          ]
    ]
  ]
]

expand_rounds-Expands :
    (fuel : ℕ) (s : String) (env : Variables)
    → count s ≤ fuel
    → Expands env s (expand_rounds fuel s env)
unfolding expand_rounds
expand_rounds-Expands zero String.[] env h = at_end
expand_rounds-Expands zero (String.◌∷◌ c s) env h = absurd (omega (arith, count.cons c s))
expand_rounds-Expands (suc fuel) s env h = elim (Option-cases (split_at b'$' s)) [
  | inl e ↦ rw (expand_rounds, e) (lacking-Expands env s (rw e at (split_at-Parts "$" s)))
  | inr ((before, after), e) ↦
      let (lacks, parts) = (rw e at (split_at-Parts "$" s)) in
      rw (expand_rounds, e, parts)
        (plain_prefix env before _ _ lacks (
          dollar-Expands env (λ next. expand_rounds fuel next env) after
            (λ next le.
              expand_rounds-Expands fuel next env
                (omega (arith, count-after "$" s before after parts)))))
]

-- `expand` gives what its input stands for by the rules.
pub expand-Expands : (input : String) (env : Variables) → Expands env input (expand input env)
unfolding expand
expand-Expands input env = expand_rounds-Expands (count input) input env (omega arith)
