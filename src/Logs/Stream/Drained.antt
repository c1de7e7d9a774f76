-- ===== src/Logs/Stream/Drained.antt =====
-- The lines that `StreamMerger::ready` of src/api/log_filter.rs writes.
use kube_shim.Prelude.{
  is_nil, ℕ, zero, suc, ◌+◌, ◌≤◌, ◌<◌, leb, ◌≡◌, refl, ◌⊎◌, inl, inr, Bool, true, false, ◌||◌, not,
  some, List, [], ◌∷◌, length, arith, Bool-cases,
}
use kube_shim.Logs.{terminated, earlier}
use kube_shim.Logs.Stream.{
  PendingLine, StreamMerger, merge_window, earliest, front_deadline, next_stream, take_line,
  written, ready_rounds, ready, deadline,
}

-- the line as it came, or with a newline
abbrev IsWritten : PendingLine → List ℕ → Type 0
IsWritten waiting line = (line ≡ waiting.line) ⊎ (line ≡ terminated waiting.line)

-- The lines of two queues, each queue in its order.
pub data Interleaved : List PendingLine → List PendingLine → List (List ℕ) → Type 0 where
  nothing : Interleaved [] [] []
  from_out :
      {x : PendingLine} {xs ys : List PendingLine} {line : List ℕ} {lines : List (List ℕ)}
      → IsWritten x line
      → Interleaved xs ys lines
      → Interleaved (x ∷ xs) ys (line ∷ lines)
  from_err :
      {y : PendingLine} {xs ys : List PendingLine} {line : List ℕ} {lines : List (List ℕ)}
      → IsWritten y line
      → Interleaved xs ys lines
      → Interleaved xs (y ∷ ys) (line ∷ lines)

written-IsWritten : (more : Bool) (x : PendingLine) → IsWritten x (written more x.line)
unfolding written
written-IsWritten true x = inr refl
written-IsWritten false x = inl refl

-- All lines are taken by a loop of enough rounds.
abbrev Drains :
    List PendingLine
    → List PendingLine
    → List (List ℕ) × List PendingLine × List PendingLine
    → Type 0
Drains xs ys (lines, xs', ys') = Interleaved xs ys lines × (xs' ≡ []) × (ys' ≡ [])

ready_rounds-Drains :
    (fuel now : ℕ) (xs ys : List PendingLine)
    → length xs + length ys ≤ fuel
    → Drains xs ys (ready_rounds fuel now true xs ys)
unfolding ready_rounds next_stream take_line
ready_rounds-Drains zero now [] [] h = (nothing, refl, refl)
ready_rounds-Drains zero now (x ∷ xs) ys h = absurd (omega arith)
ready_rounds-Drains zero now [] (y ∷ ys) h = absurd (omega arith)
ready_rounds-Drains (suc fuel) now [] [] h = (nothing, refl, refl)
ready_rounds-Drains (suc fuel) now (x ∷ xs) [] h =
    let (lines, e, e') = ready_rounds-Drains fuel now xs [] (omega arith) in
    (from_out (written-IsWritten _ x) lines, e, e')
ready_rounds-Drains (suc fuel) now [] (y ∷ ys) h =
    let (lines, e, e') = ready_rounds-Drains fuel now [] ys (omega arith) in
    (from_err (written-IsWritten _ y) lines, e, e')
ready_rounds-Drains (suc fuel) now (x ∷ xs) (y ∷ ys) h = elim (Bool-cases (earlier y.time x.time)) [
  | inl e ↦
      let (lines, e0, e1) = ready_rounds-Drains fuel now (x ∷ xs) ys (omega arith) in
      rw (ready_rounds, next_stream, e) (from_err (written-IsWritten true y) lines, e0, e1)
  | inr e ↦
      let (lines, e0, e1) = ready_rounds-Drains fuel now xs (y ∷ ys) (omega arith) in
      rw (ready_rounds, next_stream, e)
        (from_out (written-IsWritten (not (is_nil xs) || true) x) lines, e0, e1)
]

-- Once the input has ended, `ready` writes every line that waits, the lines of each stream in their
-- order, each as it came or with a newline added, and leaves no line waiting.
pub ready-drains :
    (now : ℕ) (m : StreamMerger)
    → Interleaved m.out.lines m.err.lines (ready now true m).0
      × ((ready now true m).1.out.lines ≡ [])
      × ((ready now true m).1.err.lines ≡ [])
unfolding ready
ready-drains now m =
    ready_rounds-Drains (length m.out.lines + length m.err.lines) now m.out.lines m.err.lines
      (omega arith)

-- No deadline of the first lines has passed.
abbrev InTime : ℕ → List (List ℕ) × List PendingLine × List PendingLine → Type 0
InTime now (lines, xs, ys) =
    (d : ℕ) → earliest (front_deadline xs) (front_deadline ys) ≡ some d → now < d

ready_rounds-InTime :
    (fuel now : ℕ) (ended : Bool) (xs ys : List PendingLine)
    → length xs + length ys ≤ fuel
    → InTime now (ready_rounds fuel now ended xs ys)
unfolding ready_rounds next_stream take_line earliest front_deadline
ready_rounds-InTime zero now ended [] [] h = λ d e. cc
ready_rounds-InTime zero now ended (x ∷ xs) ys h = absurd (omega arith)
ready_rounds-InTime zero now ended [] (y ∷ ys) h = absurd (omega arith)
ready_rounds-InTime (suc fuel) now ended [] [] h = λ d e. cc
ready_rounds-InTime (suc fuel) now ended (x ∷ xs) [] h =
    elim (Bool-cases (ended || leb (x.received + merge_window) now)) [
      | inl e ↦
          rw (ready_rounds, next_stream, e) (ready_rounds-InTime fuel now ended xs [] (omega arith))
      | inr e ↦ rw (ready_rounds, next_stream, e) (λ d p. ground arith)
    ]
ready_rounds-InTime (suc fuel) now ended [] (y ∷ ys) h =
    elim (Bool-cases (ended || leb (y.received + merge_window) now)) [
      | inl e ↦
          rw (ready_rounds, next_stream, e) (ready_rounds-InTime fuel now ended [] ys (omega arith))
      | inr e ↦ rw (ready_rounds, next_stream, e) (λ d p. ground arith)
    ]
ready_rounds-InTime (suc fuel) now ended (x ∷ xs) (y ∷ ys) h =
    elim (Bool-cases (earlier y.time x.time)) [
      | inl e ↦
          rw (ready_rounds, next_stream, e)
            (ready_rounds-InTime fuel now ended (x ∷ xs) ys (omega arith))
      | inr e ↦
          rw (ready_rounds, next_stream, e)
            (ready_rounds-InTime fuel now ended xs (y ∷ ys) (omega arith))
    ]

-- After `ready` no line waits whose deadline has passed: where a deadline is left, it is later than
-- the time at which `ready` ran.
pub ready-deadline :
    (now : ℕ) (ended : Bool) (m : StreamMerger) (d : ℕ)
    → deadline (ready now ended m).1 ≡ some d
    → now < d
unfolding ready deadline
ready-deadline now ended m d e =
    ready_rounds-InTime (length m.out.lines + length m.err.lines) now ended m.out.lines m.err.lines
      (omega arith) d e
