-- ===== src/Logs/Order.antt =====
-- The order of the lines that `merge_by_timestamp` of src/api/log_filter.rs writes.
use kube_shim.Prelude.{
  ℕ, ◌≡◌, refl, Bool, true, false, ◌&&◌, not, Option, none, some, List, [], ◌∷◌, All, select, arith,
  inl, inr, Bool-cases, Option-cases, ap, sym, ◌∙◌, ◌++◌,
}
use kube_shim.Prelude.Int.{ℤ}
use kube_shim.Logs.{
  Rfc3339, Keyed, earlier, insert_by_key, sort_by_key, key_lines, keyed_lines, latest, time_of,
  split_lines, merged_lines,
}

abbrev NotBefore : Keyed → Keyed → Type 0
NotBefore x y = earlier y.0 x.0 ≡ false

-- No line stands after one with a later time.
abbrev pub IsOrdered : List Keyed → Type 0
IsOrdered [] = Unit
IsOrdered (x ∷ xs) = All (NotBefore x) xs × IsOrdered xs

-- the line has this time
abbrev pub has_time : Option ℤ → Keyed → Bool
has_time time x = not (earlier time x.0) && not (earlier x.0 time)

NotBefore-trans :
    (a b c : Option ℤ) → earlier b a ≡ false → earlier c b ≡ false → earlier c a ≡ false
unfolding earlier
NotBefore-trans none b none p q = refl
NotBefore-trans none b (some c) p q = refl
NotBefore-trans (some a) none c p q = cc
NotBefore-trans (some a) (some b) none p q = cc
NotBefore-trans (some a) (some b) (some c) p q = ground arith

earlier-NotBefore : (a b : Option ℤ) → earlier a b ≡ true → earlier b a ≡ false
unfolding earlier
earlier-NotBefore none none h = refl
earlier-NotBefore none (some b) h = refl
earlier-NotBefore (some a) none h = cc
earlier-NotBefore (some a) (some b) h = ground arith

All-NotBefore :
    (x y : Keyed) (ys : List Keyed)
    → earlier y.0 x.0 ≡ false
    → All (NotBefore y) ys
    → All (NotBefore x) ys
All-NotBefore x y [] h hs = tt
All-NotBefore x y (z ∷ zs) h (p, hs) = (NotBefore-trans x.0 y.0 z.0 h p, All-NotBefore x y zs h hs)

All-insert_by_key :
    (x y : Keyed) (ys : List Keyed)
    → NotBefore x y
    → All (NotBefore x) ys
    → All (NotBefore x) (insert_by_key y ys)
unfolding insert_by_key
All-insert_by_key x y [] h hs = (h, tt)
All-insert_by_key x y (z ∷ zs) h (p, hs) = elim (Bool-cases (earlier z.0 y.0)) [
  | inl e ↦ rw e (p, All-insert_by_key x y zs h hs)
  | inr e ↦ rw e (h, (p, hs))
]

insert_by_key-IsOrdered :
    (x : Keyed) (ys : List Keyed) → IsOrdered ys → IsOrdered (insert_by_key x ys)
unfolding insert_by_key
insert_by_key-IsOrdered x [] o = (tt, tt)
insert_by_key-IsOrdered x (y ∷ ys) (p, o) = elim (Bool-cases (earlier y.0 x.0)) [
  | inl e ↦
      rw e
        (All-insert_by_key y x ys (earlier-NotBefore y.0 x.0 e) p, insert_by_key-IsOrdered x ys o)
  | inr e ↦ rw e ((e, All-NotBefore x y ys e p), (p, o))
]

select-insert_by_key :
    (time : Option ℤ) (x : Keyed) (ys : List Keyed)
    → select (has_time time) (insert_by_key x ys) ≡ select (has_time time) (x ∷ ys)
unfolding insert_by_key
select-insert_by_key time x [] = refl
select-insert_by_key time x (y ∷ ys) = elim (Bool-cases (earlier y.0 x.0)) [
  | inl e ↦ rw e (ground (arith, NotBefore-trans x.0 time y.0, select-insert_by_key time x ys))
  | inr e ↦ rw e
]

sort_by_key-IsOrdered : (xs : List Keyed) → IsOrdered (sort_by_key xs)
unfolding sort_by_key
sort_by_key-IsOrdered [] = tt
sort_by_key-IsOrdered (x ∷ xs) =
    insert_by_key-IsOrdered x (sort_by_key xs) (sort_by_key-IsOrdered xs)

select-sort_by_key :
    (time : Option ℤ) (xs : List Keyed)
    → select (has_time time) (sort_by_key xs) ≡ select (has_time time) xs
unfolding sort_by_key
select-sort_by_key time [] = refl
select-sort_by_key time (x ∷ xs) = rw (select-insert_by_key, select-sort_by_key time xs)

latest_assoc : (a b c : Option ℤ) → latest (latest a b) c ≡ latest a (latest b c)
latest_assoc none b c = refl
latest_assoc (some a) b c = refl

latest-none : (a : Option ℤ) → latest none a ≡ latest a none
latest-none none = refl
latest-none (some a) = refl

module _ (rfc3339 : Rfc3339) where
  -- the time of the last of the lines that has one
  pub last_time : List (List ℕ) → Option ℤ
  last_time [] = none
  last_time (line ∷ lines) = elim (last_time lines) [
    | none ↦ time_of rfc3339 line
    | some time ↦ some time
  ]

  -- Each line has the last time of those up to it, itself included; `before` are those before all.
  pub timed : List (List ℕ) → List (List ℕ) → List Keyed
  timed before [] = []
  timed before (line ∷ lines) =
      let up_to = before ++ line ∷ [] in (last_time up_to, line) ∷ timed up_to lines

  -- the lines of each stream with their times, one stream after the other
  pub timed_streams : List (List ℕ) → List Keyed
  timed_streams [] = []
  timed_streams (stream ∷ streams) = timed [] (split_lines stream) ++ timed_streams streams

  last_time-cons :
      (line : List ℕ) (lines : List (List ℕ))
      → last_time (line ∷ lines) ≡ latest (last_time lines) (time_of rfc3339 line)
  unfolding last_time
  last_time-cons line lines = elim (Option-cases (last_time lines)) [
    | inl e ↦ rw (last_time, e)
    | inr (time, e) ↦ rw (last_time, e)
  ]

  last_time-append :
      (before : List (List ℕ)) (line : List ℕ)
      → last_time (before ++ line ∷ []) ≡ latest (time_of rfc3339 line) (last_time before)
  unfolding last_time
  last_time-append [] line = last_time-cons line [] ∙ latest-none (time_of rfc3339 line)
  last_time-append (b ∷ before) line =
      last_time-cons b (before ++ line ∷ [])
      ∙ ap (λ t. latest t (time_of rfc3339 b)) (last_time-append before line)
      ∙ latest_assoc (time_of rfc3339 line) (last_time before) (time_of rfc3339 b)
      ∙ ap (latest (time_of rfc3339 line)) (sym (last_time-cons b before))

  key_lines-timed :
      (before lines : List (List ℕ))
      → key_lines rfc3339 (last_time before) lines ≡ timed before lines
  unfolding key_lines timed
  key_lines-timed before [] = refl
  key_lines-timed before (line ∷ lines) =
      rw (sym (last_time-append before line), key_lines-timed (before ++ line ∷ []) lines) refl

  keyed_lines-timed :
      (streams : List (List ℕ)) → keyed_lines rfc3339 streams ≡ timed_streams streams
  unfolding keyed_lines timed_streams last_time
  keyed_lines-timed [] = refl
  keyed_lines-timed (stream ∷ streams) =
      rw (keyed_lines-timed streams) (ap (λ ls. ls ++ timed_streams streams) (first stream))
    where
      first :
          (stream : List ℕ)
          → key_lines rfc3339 none (split_lines stream) ≡ timed [] (split_lines stream)
      first stream = key_lines-timed [] (split_lines stream)

  -- The sorted lines are in order, and for each time they are the lines of the streams with it.
  pub merged_lines-stable :
      (streams : List (List ℕ))
      → IsOrdered (merged_lines rfc3339 streams)
        × ((time : Option ℤ)
            → select (has_time time) (merged_lines rfc3339 streams)
              ≡ select (has_time time) (timed_streams streams))
  unfolding merged_lines
  merged_lines-stable streams = (
    sort_by_key-IsOrdered (keyed_lines rfc3339 streams),
    λ time.
        select-sort_by_key time (keyed_lines rfc3339 streams)
        ∙ ap (select (has_time time)) (keyed_lines-timed streams),
  )
