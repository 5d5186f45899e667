-- ===== src/Loadgen.antt =====
-- scripts/loadgen/main.go: the load generator, whose exit code says whether every answer was as
-- expected.
use homedns.Prelude.{
  ◌*◌, ℕ, zero, suc, ◌+◌, ◌-◌, ◌≡◌, ◌||◌, ◌&&◌, Bool, true, false, not, List, [], ◌∷◌, ◌++◌, Option,
  none, some, Bytes, length, is_empty, ltb, leb, ◌==◌, if◌then◌else◌, map,
}
use homedns.Prelude.Text.{StdLib, trim_space, lines_loop, drop_cr}
use homedns.Blocklist.Parse.{max_token}
pub mod Exit
pub mod Feed
pub mod Main
pub mod System
pub mod Report

-- What a worker gets for a name: an answer with the time it took and its code, or an error, after
-- which it dials again, with or without success.
pub data Outcome : Type 0 where
  answered : ℕ → ℕ → Outcome
  broken : Bool → Outcome

-- The counts of a worker, and `results`. A sample is here the name that it quotes.
pub record Tally : Type 0 where
  pub latencies : List ℕ
  pub rcodes : ℕ → ℕ
  pub errors : ℕ
  pub samples : List Bytes
  pub unexpected : List Bytes

abbrev pub new_tally : Tally
new_tally = record { latencies = []; rcodes = λ _. 0; errors = 0; samples = []; unexpected = [] }

-- Whether an answer is not the expected one; `none` is the expectation -1, of any code.
unfoldable pub is_wrong : Option ℕ → ℕ → Bool
is_wrong none rcode = false
is_wrong (some want) rcode = not (rcode == want)

unfoldable pub count_answer : Option ℕ → Bytes → ℕ → ℕ → Tally → Tally
unfolding is_wrong
count_answer want name took rcode t = record t {
  latencies = t.latencies ++ took ∷ [];
  rcodes = λ c. if c == rcode then suc (t.rcodes c) else t.rcodes c;
  unexpected =
      if is_wrong want rcode && ltb (length t.unexpected) 10
      then t.unexpected ++ name ∷ []
      else t.unexpected;
}

unfoldable pub count_error : Bytes → Tally → Tally
count_error name t = record t {
  errors = suc t.errors;
  samples = if ltb (length t.samples) 5 then t.samples ++ name ∷ [] else t.samples;
}

-- The loop over the queue, over the names that this worker takes from it and what it gets for them.
unfoldable pub worker_loop : Option ℕ → List (Bytes × Outcome) → Tally → Tally
unfolding count_answer count_error
worker_loop want [] t = t
worker_loop want ((name, answered took rcode) ∷ taken) t =
    worker_loop want taken (count_answer want name took rcode t)
worker_loop want ((name, broken true) ∷ taken) t = worker_loop want taken (count_error name t)
worker_loop want ((name, broken false) ∷ taken) t = count_error name t

-- A worker of a run: whether its first Dial succeeds, and what it takes.
pub record Worker : Type 0 where
  pub dialled : Bool
  pub taken : List (Bytes × Outcome)

-- The locked section at the end of a worker.
unfoldable pub merge : Tally → Tally → Tally
merge r t = record {
  latencies = r.latencies ++ t.latencies;
  rcodes = λ c. r.rcodes c + t.rcodes c;
  errors = r.errors + t.errors;
  samples = r.samples ++ t.samples;
  unexpected = r.unexpected ++ t.unexpected;
}

unfoldable pub worker : Option ℕ → Worker → Tally → Tally
unfolding worker_loop merge
worker want w r =
    if not w.dialled
    then record r { errors = suc r.errors }
    else merge r (worker_loop want w.taken new_tally)

-- The results after the workers have ended, in the order in which they took the lock.
unfoldable pub run : Option ℕ → List Worker → Tally → Tally
unfolding worker
run want [] r = r
run want (w ∷ ws) r = run want ws (worker want w r)

-- `r.mismatches` after `report`.
unfoldable pub mismatches : Option ℕ → Tally → ℕ
mismatches none r = 0
mismatches (some want) r = length r.latencies - r.rcodes want

-- The tests at the end of `main`.
unfoldable pub exit_code : Option ℕ → Tally → ℕ
unfolding mismatches
exit_code want r = if ltb 0 (mismatches want r) then 1 else if ltb 0 r.errors then 1 else 0

-- An empty line, or a comment.
unfoldable pub is_comment : Bytes → Bool
is_comment [] = true
is_comment (c ∷ s) = c == b'#'

-- The loop of `readNames` over the lines of a file that is read without a failure, which a limit
-- ends. `none` is the scanner's error: a line that is too long.
unfoldable pub names_loop : StdLib → ℕ → List Bytes → List Bytes → Option (List Bytes)
unfolding is_comment
names_loop std limit [] names = some names
names_loop std limit (raw ∷ raws) names =
    let name = trim_space std (drop_cr raw) in
    let skipped = names_loop std limit raws names in
    let more = names ++ name ∷ [] in
    let longer = names_loop std limit raws more in
    if leb max_token (length raw)
    then none
    else if is_comment name
    then skipped
    else if ltb 0 limit && leb limit (length more)
    then some more
    else longer

unfoldable pub read_names : StdLib → ℕ → Bytes → Option (List Bytes)
unfolding names_loop
read_names std limit content = names_loop std limit (lines_loop [] content) []

-- The code of `-expect`, which is -1 without one. `none` is an unknown name. `code_of` is
-- dns.StringToRcode on the name in capitals.
unfoldable pub expected : (Bytes → Option ℕ) → Bytes → Option (Option ℕ)
expected code_of [] = some none
expected code_of (c ∷ s) = elim (code_of (c ∷ s)) [ none ↦ none | some code ↦ some (some code) ]

-- `make(chan string, workers*4)`.
abbrev pub capacity : ℕ → ℕ
capacity workers = workers * 4

-- The names that the workers of a run take.
unfoldable pub total_taken : List Worker → ℕ
total_taken [] = 0
total_taken (w ∷ ws) = length w.taken + total_taken ws

-- The loop over the names sends those that are taken and those that the channel holds. If there are
-- more, it waits for good at its next send.
unfoldable pub blocks : List Bytes → List Worker → Bool
unfolding total_taken
blocks names ws = ltb (total_taken ws + capacity (length ws)) (length names)

-- How `main` ends: with exit code 2, with an error of the file, with the exit code of a run, or not at
-- all, as the run does not return.
pub data Ended : Type 0 where
  bad_usage no_names hung : Ended
  exited : ℕ → Ended

-- `main` behind the reading of the names: `workers` tells how a run on them goes.
unfoldable pub main_run :
    (List Bytes → List Worker) → Option (List Bytes) → Option (Option ℕ) → Ended
unfolding exit_code run blocks
main_run workers none expect = no_names
main_run workers (some []) expect = no_names
main_run workers (some (n ∷ names)) none = bad_usage
main_run workers (some (n ∷ names)) (some expect) =
    let ws = workers (n ∷ names) in
    if blocks (n ∷ names) ws then hung else exited (exit_code expect (run expect ws new_tally))

unfoldable pub main_read : StdLib → ℕ → Option Bytes → Option (List Bytes)
unfolding read_names
main_read std limit none = none
main_read std limit (some content) = read_names std limit content

-- `open_file` gives what a path names, if it can be opened.
unfoldable pub main :
    StdLib
    → (Bytes → Option ℕ)
    → (Bytes → Option Bytes)
    → (List Bytes → List Worker)
    → Bytes
    → ℕ
    → Bytes
    → Ended
unfolding main_run main_read expected
main std code_of open_file workers [] limit expect = bad_usage
main std code_of open_file workers (c ∷ path) limit expect =
    main_run workers (main_read std limit (open_file (c ∷ path))) (expected code_of expect)
