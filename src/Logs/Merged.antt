-- ===== src/Logs/Merged.antt =====
-- The bytes that `merge_by_timestamp` of src/api/log_filter.rs writes, taken apart into lines again.
use kube_shim.Prelude.{
  ℕ, ◌≡◌, refl, ap, false, Option, none, List, [], ◌∷◌, ◌++◌, ◌==◌, All, All-append, select, map,
  arith, inl, inr, Bool-cases, if◌then◌else◌,
}
use kube_shim.Prelude.Int.{ℤ}
use kube_shim.Logs.{
  Rfc3339, Keyed, newline, put_first, split_lines, ends_line, terminated, earlier, insert_by_key,
  sort_by_key, join_lines, key_lines, keyed_lines, merged_lines, merge_by_timestamp,
}
use kube_shim.Logs.Order.{IsOrdered, has_time, timed_streams, merged_lines-stable}

-- A line has a byte, and a newline at most as its last one.
abbrev IsLine : List ℕ → Type 0
IsLine [] = ⊥
IsLine (b ∷ []) = Unit
IsLine (b ∷ c ∷ bytes) = ((b == newline) ≡ false) × IsLine (c ∷ bytes)

-- what stands before the first newline
pub body : List ℕ → List ℕ
body [] = []
body (b ∷ bytes) = let rest = body bytes in if b == newline then [] else b ∷ rest

-- Every line but the last has a newline.
abbrev pub ended : List (List ℕ) → List (List ℕ)
ended [] = []
ended (line ∷ []) = line ∷ []
ended (line ∷ next ∷ lines) = (body line ++ newline ∷ []) ∷ ended (next ∷ lines)

IsLine-put_first :
    (b : ℕ) (lines : List (List ℕ))
    → (b == newline) ≡ false
    → All IsLine lines
    → All IsLine (put_first b lines)
unfolding put_first
IsLine-put_first b [] e h = (tt, tt)
IsLine-put_first b ([] ∷ lines) e h = absurd h.0
IsLine-put_first b ((c ∷ line) ∷ lines) e h = ((e, h.0), h.1)

split_lines-IsLine : (bytes : List ℕ) → All IsLine (split_lines bytes)
unfolding split_lines
split_lines-IsLine [] = tt
split_lines-IsLine (b ∷ bytes) = elim (Bool-cases (b == newline)) [
  | inl e ↦ rw e (tt, split_lines-IsLine bytes)
  | inr e ↦ rw e (IsLine-put_first b (split_lines bytes) e (split_lines-IsLine bytes))
]

terminated-body : (line : List ℕ) → IsLine line → terminated line ≡ body line ++ newline ∷ []
unfolding terminated body ends_line
terminated-body [] h = absurd h
terminated-body (b ∷ []) h = ground arith
terminated-body (b ∷ c ∷ bytes) h =
    let ih = terminated-body (c ∷ bytes) h.1 in
    elim (Bool-cases (ends_line (c ∷ bytes))) [
      | inl e ↦ rw (e, h.0) (ap (λ l. b ∷ l) (rw e at ih))
      | inr e ↦ rw (e, h.0) (ap (λ l. b ∷ l) (rw e at ih))
    ]

split_lines-body :
    (line rest : List ℕ)
    → split_lines ((body line ++ newline ∷ []) ++ rest)
      ≡ (body line ++ newline ∷ []) ∷ split_lines rest
unfolding split_lines body
split_lines-body [] rest = refl
split_lines-body (b ∷ line) rest = elim (Bool-cases (b == newline)) [
  | inl e ↦ rw e refl
  | inr e ↦ rw (e, split_lines, e, split_lines-body line rest) refl
]

split_lines-line : (line : List ℕ) → IsLine line → split_lines line ≡ line ∷ []
unfolding split_lines put_first
split_lines-line [] h = absurd h
split_lines-line (b ∷ []) h = ground arith
split_lines-line (b ∷ c ∷ bytes) h = rw (h.0, split_lines-line (c ∷ bytes) h.1) refl

abbrev KeyedLine : Keyed → Type 0
KeyedLine x = IsLine x.1

abbrev pub line_of : Keyed → List ℕ
line_of x = x.1

split_lines-join_lines :
    (xs : List Keyed) → All KeyedLine xs → split_lines (join_lines xs) ≡ ended (map line_of xs)
unfolding join_lines split_lines
split_lines-join_lines [] h = refl
split_lines-join_lines (x ∷ []) h = split_lines-line x.1 h.0
split_lines-join_lines (x ∷ y ∷ xs) h =
    rw (terminated-body x.1 h.0, split_lines-body x.1 (join_lines (y ∷ xs)))
      (ap (λ ls. (body x.1 ++ newline ∷ []) ∷ ls) (split_lines-join_lines (y ∷ xs) h.1))

KeyedLine-insert_by_key :
    (x : Keyed) (ys : List Keyed)
    → KeyedLine x
    → All KeyedLine ys
    → All KeyedLine (insert_by_key x ys)
unfolding insert_by_key
KeyedLine-insert_by_key x [] h hs = (h, tt)
KeyedLine-insert_by_key x (y ∷ ys) h hs = elim (Bool-cases (earlier y.0 x.0)) [
  | inl e ↦ rw e (hs.0, KeyedLine-insert_by_key x ys h hs.1)
  | inr e ↦ rw e (h, hs)
]

KeyedLine-sort_by_key : (xs : List Keyed) → All KeyedLine xs → All KeyedLine (sort_by_key xs)
unfolding sort_by_key
KeyedLine-sort_by_key [] h = tt
KeyedLine-sort_by_key (x ∷ xs) h =
    KeyedLine-insert_by_key x (sort_by_key xs) h.0 (KeyedLine-sort_by_key xs h.1)

module _ (rfc3339 : Rfc3339) where
  KeyedLine-key_lines :
      (lines : List (List ℕ)) (last : Option ℤ)
      → All IsLine lines
      → All KeyedLine (key_lines rfc3339 last lines)
  unfolding key_lines
  KeyedLine-key_lines [] last h = tt
  KeyedLine-key_lines (line ∷ lines) last h = (h.0, KeyedLine-key_lines lines _ h.1)

  KeyedLine-keyed_lines : (streams : List (List ℕ)) → All KeyedLine (keyed_lines rfc3339 streams)
  unfolding keyed_lines
  KeyedLine-keyed_lines [] = tt
  KeyedLine-keyed_lines (stream ∷ streams) =
      All-append KeyedLine (key_lines rfc3339 none (split_lines stream))
        (keyed_lines rfc3339 streams)
        (KeyedLine-key_lines (split_lines stream) none (split_lines-IsLine stream))
        (KeyedLine-keyed_lines streams)

  -- The lines of the merged log are those of the streams in the order of their times, each with a
  -- newline but the last, which is as it was. The time of a line is that of the last line of its
  -- stream, up to and with itself, that starts with a timestamp. The lines of each time are those of
  -- all the streams with this time, in the order of the streams and of the lines in them: the merge is
  -- stable, and adds and loses no line.
  pub merge_by_timestamp-merges :
      (streams : List (List ℕ))
      → (lines : List Keyed) × (split_lines (merge_by_timestamp rfc3339 streams)
          ≡ ended (map line_of lines))
        × IsOrdered lines
        × ((time : Option ℤ)
            → select (has_time time) lines ≡ select (has_time time) (timed_streams rfc3339 streams))
  unfolding merge_by_timestamp merged_lines
  merge_by_timestamp-merges streams =
      let (ordered, same) = merged_lines-stable rfc3339 streams in
      (
        merged_lines rfc3339 streams,
        split_lines-join_lines _ (KeyedLine-sort_by_key _ (KeyedLine-keyed_lines streams)),
        ordered,
        same,
      )
