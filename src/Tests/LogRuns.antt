-- ===== src/Tests/LogRuns.antt =====
-- Runs of the theorems on logs.
use hamok_ts.Prelude.{
  ℕ, zero, suc, ◌+◌, ◌-◌, ◌≤◌, ◌<◌, ◌≡◌, ◌≢◌, refl, ◌⊎◌, ◌&&◌, Option, none, some, List, [], ◌∷◌,
  if◌then◌else◌, leb, ltb, length, range_from, get_elem?, arith, number_key, ℕ_discrete,
}
use hamok_ts.JsMap
use hamok_ts.Logs.{RaftLogs, LogEntry, submit}
use hamok_ts.Logs.Collection.{collect_entries}
use hamok_ts.Logs.Commit.{commit_until}
use hamok_ts.Logs.Purge.{expire, remove_until}
use hamok_ts.Logs.Invariant.{IsValid, create-IsValid, submit-IsValid}
use hamok_ts.Logs.History.{
  LogCall, run_calls, run_calls_commit, submits, adds, commits_until, removes_until,
}
use hamok_ts.Logs.Committing.{commit_indices, commit_until_commits, commit_until_reaches}
use hamok_ts.Logs.Expiry.{expire-keeps_fresh}
use hamok_ts.Logs.Collecting.{collect_entries_places}
use hamok_ts.Logs.Removal.{get-remove_until}
use hamok_ts.Tests.Samples.{logs_config, note, noted, no_logs, three_logs}

pub three_logs-IsValid : IsValid three_logs
three_logs-IsValid = submit-IsValid 2 1 (note 2) _ (
    submit-IsValid 1 1 (note 1) _
      (submit-IsValid 0 1 (note 0) no_logs (create-IsValid logs_config)))

abbrev some_calls : List (LogCall ℕ)
some_calls =
    submits 0 1 (note 0)
    ∷ submits 1 1 (note 1)
    ∷ commits_until 2 1
    ∷ adds 3 2 1 (note 2)
    ∷ commits_until 4 3
    ∷ removes_until 1
    ∷ []

run_calls_commit_example :
    IsValid (run_calls some_calls no_logs).0
    × ((n : ℕ) × (commit_indices (run_calls some_calls no_logs).1 ≡ range_from no_logs.committed n)
        × ((run_calls some_calls no_logs).0.committed ≡ no_logs.committed + n))
run_calls_commit_example = run_calls_commit some_calls no_logs (create-IsValid logs_config)

commit_until_commits_example :
    (commit_indices (commit_until 5 2 three_logs).2
      ≡ range_from three_logs.committed (length (commit_until 5 2 three_logs).1))
    × ((commit_until 5 2 three_logs).0.committed
        ≡ three_logs.committed + length (commit_until 5 2 three_logs).1)
    × (((commit_until 5 2 three_logs).0.committed ≤ 2)
        ⊎ ((commit_until 5 2 three_logs).0.committed ≡ three_logs.committed))
commit_until_commits_example = commit_until_commits 5 2 three_logs three_logs-IsValid

first_entry : JsMap.get 0 three_logs.entries ≡ some (noted 0)
unfolding submit JsMap.get JsMap.set ℕ_discrete
first_entry = refl

second_entry : JsMap.get 1 three_logs.entries ≡ some (noted 1)
unfolding submit JsMap.get JsMap.set ℕ_discrete
second_entry = refl

third_entry : JsMap.get 2 three_logs.entries ≡ some (noted 2)
unfolding submit JsMap.get JsMap.set ℕ_discrete
third_entry = refl

some_there : {o : Option (LogEntry ℕ)} (d : LogEntry ℕ) → o ≡ some d → o ≢ none
some_there d h k = absurd cc

all_there : (i : ℕ) → 0 ≤ i → i < three_logs.next_index → JsMap.get i three_logs.entries ≢ none
unfolding submit
all_there zero from below = some_there (noted 0) first_entry
all_there (suc zero) from below = some_there (noted 1) second_entry
all_there (suc (suc zero)) from below = some_there (noted 2) third_entry
all_there (suc (suc (suc i))) from below = absurd (omega (arith, below))

none_committed : three_logs.committed ≡ 0
unfolding submit
none_committed = refl

pub three_next : three_logs.next_index ≡ 3
unfolding submit
three_next = refl

commit_until_reaches_example : (commit_until 5 2 three_logs).0.committed ≡ 2
commit_until_reaches_example =
    commit_until_reaches 5 2 three_logs three_logs-IsValid (omega (arith, none_committed))
      (omega (arith, three_next))
      (λ i from below. all_there i (omega arith) (omega (arith, below, three_next)))

two_committed : 1 < length (commit_until 5 2 three_logs).1
two_committed =
    omega (arith, commit_until_reaches_example, commit_until_commits_example.1, none_committed)

short_expiration : 5 ≤ 1 + three_logs.config.expiration_time_in_ms
unfolding submit
short_expiration = omega arith

expire-keeps_fresh_example : JsMap.get 1 (expire 5 three_logs).0.entries ≡ some (noted 1)
expire-keeps_fresh_example =
    expire-keeps_fresh 5 1 (noted 1) three_logs second_entry short_expiration

nothing_purged : (i : ℕ) → i < 0 → JsMap.get i three_logs.entries ≡ none
nothing_purged i h = absurd (omega (arith, h))

two_collected : 0 < length (collect_entries 1 none three_logs).0
unfolding submit collect_entries JsMap.get JsMap.set ℕ_discrete
two_collected = omega arith

collect_entries_places_example :
    get_elem? (collect_entries 1 none three_logs).0 0
    ≡ JsMap.get
        (three_logs.next_index - length (collect_entries 1 none three_logs).0 + 0)
        three_logs.entries
collect_entries_places_example =
    collect_entries_places 1 0 0 three_logs (omega (arith, three_next)) (omega arith) nothing_purged
      all_there two_collected

abbrev committed_logs : RaftLogs ℕ
committed_logs = record three_logs { committed = 3 }

first_is_zero : committed_logs.first_index ≡ 0
unfolding submit
first_is_zero = refl

get-remove_until_example : JsMap.get 1 (remove_until 1 committed_logs).0.entries ≡ (
    if leb committed_logs.first_index 1 && ltb 2 committed_logs.committed
    then none
    else JsMap.get 1 committed_logs.entries)
get-remove_until_example =
    get-remove_until 1 1 committed_logs (omega (arith, first_is_zero)) (omega arith)
