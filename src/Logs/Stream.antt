-- ===== src/Logs/Stream.antt =====
-- The followed log of src/api/log_filter.rs: `StreamMerger`, and `LogFilter::apply_stream` as a step
-- for each event. Times of arrival are numbers of milliseconds.
pub mod Kept
pub mod Limit
pub mod Drained
use kube_shim.Prelude.{
  is_nil, ℕ, zero, suc, ◌+◌, ◌-◌, Bool, true, false, ◌||◌, ◌&&◌, not, leb, ltb, Option, none, some,
  List, [], ◌∷◌, ◌++◌, ◌==◌, length, take, if◌then◌else◌,
}
use kube_shim.Prelude.Int.{ℤ}
use kube_shim.Logs.{
  Rfc3339, newline, split_lines, split_timestamp, time_of, latest, earlier, ends_line, terminated,
}
use kube_shim.Logs.Filter.{LogFilter, filter_line}

abbrev pub merge_window : ℕ
merge_window = 200

-- src/ssh.rs
pub data OutputStream : Type 0 where
  stdout stderr : OutputStream

pub record PendingLine : Type 0 where
  pub time : Option ℤ
  pub received : ℕ
  pub line : List ℕ

pub record MergerInput : Type 0 where
  pub partial : List ℕ
  pub last_time : Option ℤ
  pub lines : List PendingLine

pub record StreamMerger : Type 0 where
  pub out : MergerInput
  pub err : MergerInput

abbrev pub input : OutputStream → StreamMerger → MergerInput
input stdout m = m.out
input stderr m = m.err

abbrev pub set_input : OutputStream → MergerInput → StreamMerger → StreamMerger
set_input stdout i m = record m { out = i }
set_input stderr i m = record m { err = i }

-- the bytes up to the last newline, and those after it; `none` where there is no newline
unfoldable pub split_complete : List ℕ → Option (List ℕ × List ℕ)
split_complete [] = none
split_complete (b ∷ bytes) = elim (split_complete bytes) [
  | some (complete, partial) ↦ some (b ∷ complete, partial)
  | none ↦ if b == newline then some (b ∷ [], bytes) else none
]

module _ (rfc3339 : Rfc3339) where
  unfoldable pub push_line : ℕ → List ℕ → MergerInput → MergerInput
  push_line received line i =
      let time = latest (time_of rfc3339 line) i.last_time in
      record i {
        last_time = time;
        lines = i.lines ++ record { time = time; received = received; line = line } ∷ [];
      }

  unfoldable pub push_lines : ℕ → List (List ℕ) → MergerInput → MergerInput
  unfolding push_line
  push_lines received [] i = i
  push_lines received (line ∷ lines) i = push_lines received lines (push_line received line i)

  push_complete : ℕ → List ℕ → MergerInput → Option (List ℕ × List ℕ) → MergerInput
  unfolding push_lines
  push_complete received all i none = record i { partial = all }
  push_complete received all i (some (complete, partial)) =
      push_lines received (split_lines complete) (record i { partial = partial })

  unfoldable pub push_input : ℕ → List ℕ → MergerInput → MergerInput
  unfolding push_complete split_complete
  push_input received bytes i =
      let all = i.partial ++ bytes in push_complete received all i (split_complete all)

  unfoldable pub push : OutputStream → List ℕ → ℕ → StreamMerger → StreamMerger
  unfolding push_input
  push kind bytes received m = set_input kind (push_input received bytes (input kind m)) m

  finish_partial : ℕ → List ℕ → MergerInput → MergerInput
  unfolding push_line
  finish_partial received [] i = i
  finish_partial received (b ∷ bytes) i = push_line received (b ∷ bytes) (record i { partial = [] })

  unfoldable pub finish_input : ℕ → MergerInput → MergerInput
  unfolding finish_partial
  finish_input received i = finish_partial received i.partial i

  unfoldable pub finish : ℕ → StreamMerger → StreamMerger
  unfolding finish_input
  finish received m = record {
    out = finish_input received m.out;
    err = finish_input received m.err;
  }

front_deadline : List PendingLine → Option ℕ
front_deadline [] = none
front_deadline (l ∷ ls) = some (l.received + merge_window)

-- `Iterator::min` of the two
earliest : Option ℕ → Option ℕ → Option ℕ
earliest none b = b
earliest (some a) none = some a
earliest (some a) (some b) = if ltb b a then some b else some a

-- when the oldest waiting line must be written at the latest
unfoldable pub deadline : StreamMerger → Option ℕ
unfolding earliest front_deadline
deadline m = earliest (front_deadline m.out.lines) (front_deadline m.err.lines)

-- The stream whose first line is written next, if one is.
unfoldable pub next_stream : ℕ → Bool → List PendingLine → List PendingLine → Option OutputStream
unfolding earlier
next_stream now ended (a ∷ xs) (b ∷ ys) = if earlier b.time a.time then some stderr else some stdout
next_stream now ended (a ∷ xs) [] =
    if ended || leb (a.received + merge_window) now then some stdout else none
next_stream now ended [] (b ∷ ys) =
    if ended || leb (b.received + merge_window) now then some stderr else none
next_stream now ended [] [] = none

-- A line that another one follows ends with a newline.
unfoldable pub written : Bool → List ℕ → List ℕ
unfolding terminated
written more line = if more then terminated line else line

-- `none` is the end of the loop; a round takes one line from the front.
take_line :
    Option OutputStream
    → List PendingLine
    → List PendingLine
    → Option (List ℕ × List PendingLine × List PendingLine)
unfolding written
take_line (some stdout) (a ∷ xs) ys =
    some (written (not (is_nil xs) || not (is_nil ys)) a.line, xs, ys)
take_line (some stderr) xs (b ∷ ys) =
    some (written (not (is_nil xs) || not (is_nil ys)) b.line, xs, ys)
take_line _ xs ys = none

-- the rounds of `ready`: the lines taken, and those that wait on
unfoldable pub ready_rounds :
    ℕ
    → ℕ
    → Bool
    → List PendingLine
    → List PendingLine
    → List (List ℕ) × List PendingLine × List PendingLine
unfolding next_stream take_line
ready_rounds zero now ended xs ys = ([], xs, ys)
ready_rounds (suc fuel) now ended xs ys = elim (take_line (next_stream now ended xs ys) xs ys) [
  | none ↦ ([], xs, ys)
  | some (line, xs', ys') ↦
      let (lines, rest, rest') = ready_rounds fuel now ended xs' ys' in (line ∷ lines, rest, rest')
]

-- Each round takes a line, so there are at most as many rounds as lines.
unfoldable pub ready : ℕ → Bool → StreamMerger → List (List ℕ) × StreamMerger
unfolding ready_rounds
ready now ended m =
    let (lines, xs, ys) =
      ready_rounds (length m.out.lines + length m.err.lines) now ended m.out.lines m.err.lines in
    (lines, record { out = record m.out { lines = xs }; err = record m.err { lines = ys } })

-- What the task of `apply_stream` waits for: a chunk, the deadline of the oldest line, or the end of
-- the input; the times at which the clock is then read, for the line and by `ready`; and whether the
-- receiver of the output has gone.
pub data Arrival : Type 0 where
  chunk : OutputStream → List ℕ → Arrival
  deadline_passed : Arrival
  end_of_input : Arrival

pub record Event : Type 0 where
  pub arrival : Arrival
  pub received : ℕ
  pub now : ℕ
  pub receiver_gone : Bool

-- The task's variables, and what it has sent.
pub record Follow : Type 0 where
  pub merger : StreamMerger
  pub remaining : Option ℕ
  pub ended : Bool
  pub done : Bool
  pub sent : List ℕ

abbrev no_input : MergerInput
no_input = record { partial = []; last_time = none; lines = [] }

abbrev pub follow_start : LogFilter → Follow
follow_start filter = record {
  merger = record { out = no_input; err = no_input };
  remaining = filter.limit_bytes;
  ended = false;
  done = false;
  sent = [];
}

abbrev pub is_end : Arrival → Bool
is_end (chunk kind bytes) = false
is_end deadline_passed = false
is_end end_of_input = true

abbrev pub raw : Arrival → List ℕ
raw (chunk kind bytes) = bytes
raw deadline_passed = []
raw end_of_input = []

-- the limit: what is written, whether the limit is reached, and what is left of it
unfoldable pub limited : Option ℕ → List ℕ → List ℕ × Bool × Option ℕ
limited none out = (out, false, none)
limited (some left) out =
    if leb left (length out)
    then (take left out, true, some (left - length (take left out)))
    else (out, false, some (left - length out))

module _ (rfc3339 : Rfc3339) (filter : LogFilter) where
  abbrev pub arrive : Arrival → ℕ → StreamMerger → StreamMerger
  arrive (chunk kind bytes) now m = push rfc3339 kind bytes now m
  arrive deadline_passed now m = m
  arrive end_of_input now m = finish rfc3339 now m

  unfoldable pub write_lines : List (List ℕ) → List ℕ
  write_lines [] = []
  write_lines (line ∷ lines) = filter_line rfc3339 filter line ++ write_lines lines

  -- what an event gives to write, before the limit, and the merger after it
  unfoldable pub gather : Event → Bool → StreamMerger → List ℕ × StreamMerger
  unfolding write_lines
  gather event ended m =
      if filter.input_has_timestamps
      then (let (lines, m') = ready event.now ended (arrive event.arrival event.received m) in
          (write_lines lines, m'))
      else (raw event.arrival, m)

  -- One round of the loop; a loop that has ended takes no event.
  unfoldable pub follow_step : Event → Follow → Follow
  unfolding gather limited
  follow_step event f =
      let ended = f.ended || is_end event.arrival in
      let (gathered, m) = gather event ended f.merger in
      let (out, full, left) = limited f.remaining gathered in
      if f.done then f else record {
        merger = m;
        remaining = left;
        ended = ended;
        done = ended || full || (event.receiver_gone && not (is_nil out));
        sent = if event.receiver_gone then f.sent else f.sent ++ out;
      }

  unfoldable pub follow : List Event → Follow → Follow
  unfolding follow_step
  follow [] f = f
  follow (event ∷ events) f = follow events (follow_step event f)
