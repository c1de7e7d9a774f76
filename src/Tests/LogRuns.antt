-- ===== src/Tests/LogRuns.antt =====
-- The theorems on logs at concrete inputs: a time is one decimal digit.
use kube_shim.Prelude.{
  ℕ, ◌-◌, ◌+◌, ◌≡◌, ◌≤◌, ◌<◌, refl, true, false, Option, none, some, List, [], ◌∷◌, ◌++◌, length,
  drop, map, select, leb, ◌&&◌, if◌then◌else◌,
}
use kube_shim.Prelude.Int.{ℤ, pos, negsuc}
use kube_shim.Logs.{Rfc3339, split_lines, split_timestamp, Keyed, merge_by_timestamp}
use kube_shim.Logs.Order.{IsOrdered, has_time, timed_streams}
use kube_shim.Logs.Merged.{ended, line_of, merge_by_timestamp-merges}
use kube_shim.Logs.Filter.{LogFilter, apply, filter_line}
use kube_shim.Logs.Filter.Bounds.{apply_plain}
use kube_shim.Logs.Stream.{
  stdout, stderr, StreamMerger, input, push, finish, ready, deadline, chunk, deadline_passed,
  end_of_input, Event, follow_start, follow,
}
use kube_shim.Logs.Stream.Kept.{held, push-held}
use kube_shim.Logs.Stream.Drained.{Interleaved, ready-drains, ready-deadline}
use kube_shim.Logs.Stream.Limit.{length-follow-le}

digit_time : List ℕ → Option ℤ
digit_time (b ∷ []) = if leb 48 b && leb b 57 then some (pos (b - 48)) else none
digit_time _ = none

time_digit : ℤ → List ℕ
time_digit (pos n) = (n + 48) ∷ []
time_digit (negsuc n) = []

abbrev rfc3339 : Rfc3339
rfc3339 = record { parse = digit_time; format = time_digit }

-- "1 a\n3 c\n" and "2 b"
abbrev out_log : List ℕ
out_log = 49 ∷ 32 ∷ 97 ∷ 10 ∷ 51 ∷ 32 ∷ 99 ∷ 10 ∷ []

abbrev err_log : List ℕ
err_log = 50 ∷ 32 ∷ 98 ∷ []

merged :
    merge_by_timestamp rfc3339 (out_log ∷ err_log ∷ [])
    ≡ 49 ∷ 32 ∷ 97 ∷ 10 ∷ 50 ∷ 32 ∷ 98 ∷ 10 ∷ 51 ∷ 32 ∷ 99 ∷ 10 ∷ []
unfolding merge_by_timestamp digit_time
merged = refl

merge_by_timestamp-merges_example :
    (lines : List Keyed) × (split_lines (merge_by_timestamp rfc3339 (out_log ∷ err_log ∷ []))
      ≡ ended (map line_of lines))
    × IsOrdered lines
    × ((time : Option ℤ)
        → select (has_time time) lines
          ≡ select (has_time time) (timed_streams rfc3339 (out_log ∷ err_log ∷ [])))
merge_by_timestamp-merges_example = merge_by_timestamp-merges rfc3339 (out_log ∷ err_log ∷ [])

abbrev plain : LogFilter
plain = record {
  input_has_timestamps = false;
  timestamps = false;
  since = none;
  limit_bytes = none;
}

apply_plain_example :
    ((n : ℕ)
      → split_lines (apply rfc3339 plain out_log (some n))
        ≡ drop (length (split_lines out_log) - n) (split_lines out_log))
    × (apply rfc3339 plain out_log none ≡ out_log)
apply_plain_example = apply_plain rfc3339 plain out_log refl refl

last_line : apply rfc3339 plain out_log (some 1) ≡ 51 ∷ 32 ∷ 99 ∷ 10 ∷ []
unfolding apply split_lines
last_line = refl

abbrev limit_5 : LogFilter
limit_5 = record {
  input_has_timestamps = true;
  timestamps = false;
  since = some (pos 2);
  limit_bytes = some 5;
}

abbrev events : List Event
events =
    record { arrival = chunk stdout out_log; received = 10; now = 10; receiver_gone = false }
    ∷ record { arrival = chunk stderr err_log; received = 20; now = 20; receiver_gone = false }
    ∷ record { arrival = deadline_passed; received = 500; now = 500; receiver_gone = false }
    ∷ record { arrival = end_of_input; received = 501; now = 501; receiver_gone = false }
    ∷ []

sent : (follow rfc3339 limit_5 events (follow_start limit_5)).sent ≡ 99 ∷ 10 ∷ 98 ∷ []
unfolding follow digit_time ready push split_lines filter_line split_timestamp finish
sent = refl

length-follow-le_example : length (follow rfc3339 limit_5 events (follow_start limit_5)).sent ≤ 5
length-follow-le_example = length-follow-le rfc3339 limit_5 5 events refl

abbrev merger : StreamMerger
merger = (follow_start plain).merger

push-held_example :
    (held (input stdout (push rfc3339 stdout err_log 7 merger))
      ≡ held (input stdout merger) ++ err_log)
    × (held (input stdout (finish rfc3339 7 merger)) ≡ held (input stdout merger))
    × ((input stdout (finish rfc3339 7 merger)).partial ≡ [])
push-held_example = push-held rfc3339 stdout stdout err_log 7 merger

abbrev waiting : StreamMerger
waiting = push rfc3339 stdout out_log 7 (finish rfc3339 9 (push rfc3339 stderr err_log 8 merger))

ready-drains_example :
    Interleaved waiting.out.lines waiting.err.lines (ready 9 true waiting).0
    × ((ready 9 true waiting).1.out.lines ≡ [])
    × ((ready 9 true waiting).1.err.lines ≡ [])
ready-drains_example = ready-drains 9 waiting

ready-deadline_example : 7 < 207
unfolding deadline ready push split_lines
ready-deadline_example = ready-deadline 7 false (push rfc3339 stdout out_log 7 merger) 207 refl
