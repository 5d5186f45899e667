-- ===== src/Tests/Loadgen.antt =====
-- scripts/loadgen/main.go on short runs.
use homedns.Prelude.{
  if◌then◌else◌, ◌≡◌, refl, ℕ, Option, none, true, false, List, [], ◌∷◌, some, Bytes, codes, str_eq,
  arith,
}
use homedns.Loadgen.{
  blocks, total_taken, capacity, hung, mismatches, Outcome, main, main_run, main_read, expected,
  exited, answered, broken, Worker, new_tally, run, exit_code, worker, merge, worker_loop,
  count_answer, count_error, is_wrong, read_names, names_loop, is_comment,
}
use homedns.Prelude.Text.{
  is_ascii, is_space, trim_left, trim_right, trim_space, lines_loop, drop_cr,
}
use homedns.Loadgen.Feed.{
  Feed, Reach, here, step, send, close, take, finish, IsBlocked, new_feed, run_can_block,
}
use homedns.Tests.World.{std}

-- One worker gets an answer and breaks off, and the other cannot dial.
abbrev workers : List Worker
workers =
    record { dialled = true; taken = (codes "a", answered 5 3) ∷ (codes "b", broken false) ∷ [] }
    ∷ record { dialled = false; taken = [] }
    ∷ []

two_errors : (run (some 3) workers new_tally).errors ≡ 2
unfolding run worker merge worker_loop count_answer count_error is_wrong
two_errors = refl

-- NXDOMAIN is the one name of a code, and the file is at `f`.
abbrev code_of : Bytes → Option ℕ
code_of s = if str_eq s (codes "NXDOMAIN") then some 3 else none

abbrev open_file : Bytes → Option Bytes
open_file path = if str_eq path (codes "f") then some (codes "a\n# c\n\nb\nd\n") else none

-- One worker takes all names, and every answer has the code 3.
abbrev answers : List Bytes → List (Bytes × Outcome)
answers [] = []
answers (n ∷ ns) = (n, answered 5 3) ∷ answers ns

abbrev all_good : List Bytes → List Worker
all_good names = record { dialled = true; taken = answers names } ∷ []

exits_zero : main std code_of open_file all_good (codes "f") 2 (codes "NXDOMAIN") ≡ exited 0
unfolding main main_run blocks total_taken main_read expected exit_code mismatches run worker merge
    worker_loop count_answer count_error is_wrong read_names names_loop is_comment lines_loop
    drop_cr trim_space trim_left trim_right is_space is_ascii str_eq
exits_zero = refl

-- The limit ends the loop, and the comment and the empty line are no names.
read_two : read_names std 2 (codes "a\n# c\n\nb\nd\n") ≡ some (codes "a" ∷ codes "b" ∷ [])
unfolding read_names names_loop is_comment lines_loop drop_cr trim_space trim_left trim_right
    is_space is_ascii str_eq
read_two = refl

abbrev names : List Bytes
names = codes "a" ∷ codes "b" ∷ codes "c" ∷ codes "d" ∷ codes "e" ∷ []

-- Without a worker the run does not return.
no_workers : main std code_of open_file (λ ns. []) (codes "f") 2 (codes "NXDOMAIN") ≡ hung
unfolding main main_run blocks total_taken main_read expected read_names names_loop is_comment
    lines_loop drop_cr trim_space trim_left trim_right is_space is_ascii str_eq
no_workers = refl

feed_blocks : (f : Feed) × Reach (capacity 1) (new_feed 1 names) f × IsBlocked (capacity 1) f
feed_blocks = run_can_block 1 names (omega arith)

-- One name goes through the channel.
abbrev fed : Feed
fed = record {
  pending = [];
  channel = [];
  taken = codes "a" ∷ [];
  is_closed = true;
  live = 0;
  left = 0;
}

to_fed : Reach (capacity 1) (new_feed 1 (codes "a" ∷ [])) fed
to_fed =
    step
      (step (step (step here (send (codes "a") [] refl (omega arith))) (close refl refl))
        (take (codes "a") [] refl (omega arith)))
      (finish 0 refl refl refl)
