-- ===== src/Logs/Stream/Kept.antt =====
-- `StreamMerger` of src/api/log_filter.rs loses nothing.
use mathlib.Core.List.{append_assoc, append-nil}
use kube_shim.Prelude.{
  ℕ, ◌≡◌, refl, sym, ◌∙◌, inl, inr, Option, none, some, List, [], ◌∷◌, ◌++◌, ◌==◌, Bool-cases,
  Option-cases,
}
use kube_shim.Logs.{Rfc3339, split_lines, newline}
use kube_shim.Logs.Lines.{concat, concat-split_lines}
use kube_shim.Logs.Stream.{
  OutputStream, stdout, stderr, PendingLine, MergerInput, StreamMerger, input, split_complete,
  push_line, push_lines, push_complete, push_input, push, finish_partial, finish_input, finish,
}

abbrev line_bytes : List PendingLine → List ℕ
line_bytes [] = []
line_bytes (l ∷ ls) = l.line ++ line_bytes ls

-- the bytes of a stream that have not been written yet
abbrev pub held : MergerInput → List ℕ
held i = line_bytes i.lines ++ i.partial

line_bytes-append :
    (xs ys : List PendingLine) → line_bytes (xs ++ ys) ≡ line_bytes xs ++ line_bytes ys
line_bytes-append [] ys = refl
line_bytes-append (x ∷ xs) ys = simp (line_bytes-append xs ys, append_assoc)

split_complete-append :
    (bytes complete partial : List ℕ)
    → split_complete bytes ≡ some (complete, partial)
    → complete ++ partial ≡ bytes
unfolding split_complete
split_complete-append [] complete partial h = cc
split_complete-append (b ∷ bytes) complete partial h = elim (Option-cases (split_complete bytes)) [
  | inl e ↦ elim (Bool-cases (b == newline)) [
    | inl t ↦ cc (rw (e, t) at h)
    | inr t ↦ cc (rw (e, t) at h)
  ]
  | inr ((c, p), e) ↦ cc (rw e at h, split_complete-append bytes c p e)
]

module _ (rfc3339 : Rfc3339) (received : ℕ) where
  held-push_lines :
      (lines : List (List ℕ)) (i : MergerInput)
      → (line_bytes (push_lines rfc3339 received lines i).lines
          ≡ line_bytes i.lines ++ concat lines)
        × ((push_lines rfc3339 received lines i).partial ≡ i.partial)
  unfolding push_lines push_line
  held-push_lines [] i = (sym (append-nil (line_bytes i.lines)), refl)
  held-push_lines (line ∷ lines) i =
      let next = held-push_lines lines (push_line rfc3339 received line i) in
      (next.0 ∙ simp (line_bytes-append, append-nil, append_assoc), next.1)

  held-push_complete :
      (bytes : List ℕ) (i : MergerInput) (o : Option (List ℕ × List ℕ))
      → split_complete (i.partial ++ bytes) ≡ o
      → held (push_complete rfc3339 received (i.partial ++ bytes) i o) ≡ held i ++ bytes
  unfolding push_complete
  held-push_complete bytes i none e = simp (append_assoc)
  held-push_complete bytes i (some (complete, partial)) e =
      let next = held-push_lines (split_lines complete) (record i { partial = partial }) in
      rw (next.0, next.1, concat-split_lines)
        (simp (append_assoc, split_complete-append (i.partial ++ bytes) complete partial e))

  held-push_input :
      (bytes : List ℕ) (i : MergerInput)
      → held (push_input rfc3339 received bytes i) ≡ held i ++ bytes
  unfolding push_input
  held-push_input bytes i = held-push_complete bytes i _ refl

  held-finish_partial :
      (i : MergerInput) (partial : List ℕ)
      → i.partial ≡ partial
      → (held (finish_partial rfc3339 received partial i) ≡ held i)
        × ((finish_partial rfc3339 received partial i).partial ≡ [])
  unfolding finish_partial push_line
  held-finish_partial i [] e = (refl, e)
  held-finish_partial i (b ∷ bytes) e = (rw e (simp (line_bytes-append, append-nil)), refl)

abbrev added : OutputStream → OutputStream → List ℕ → List ℕ
added stdout stdout bytes = bytes
added stderr stderr bytes = bytes
added _ _ bytes = []

-- A chunk adds its bytes to those that are held of its own stream, and leaves the other one alone;
-- the end of the input changes no byte of what is held, and leaves no unfinished line.
pub push-held :
    (rfc3339 : Rfc3339) (kind other : OutputStream) (bytes : List ℕ) (now : ℕ) (m : StreamMerger)
    → (held (input other (push rfc3339 kind bytes now m))
        ≡ held (input other m) ++ added kind other bytes)
      × (held (input other (finish rfc3339 now m)) ≡ held (input other m))
      × ((input other (finish rfc3339 now m)).partial ≡ [])
unfolding push finish finish_input
push-held rfc3339 stdout stdout bytes now m =
    let f = held-finish_partial rfc3339 now m.out _ refl in
    (held-push_input rfc3339 now bytes m.out, f.0, f.1)
push-held rfc3339 stdout stderr bytes now m =
    let f = held-finish_partial rfc3339 now m.err _ refl in
    (sym (append-nil (held m.err)), f.0, f.1)
push-held rfc3339 stderr stdout bytes now m =
    let f = held-finish_partial rfc3339 now m.out _ refl in
    (sym (append-nil (held m.out)), f.0, f.1)
push-held rfc3339 stderr stderr bytes now m =
    let f = held-finish_partial rfc3339 now m.err _ refl in
    (held-push_input rfc3339 now bytes m.err, f.0, f.1)
