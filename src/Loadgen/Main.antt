-- ===== src/Loadgen/Main.antt =====
-- When the load generator succeeds.
use homedns.Prelude.{ℕ, ◌≡◌, ◌≢◌, List, [], Option, some, Bytes, All, ◌+◌, ◌≤◌, length}
use homedns.Prelude.Text.{StdLib}
use homedns.Loadgen.{Worker, read_names, expected, capacity, total_taken}
use homedns.Loadgen.Exit.{IsClean}

-- The file can be opened and has names, the expected code is known, and the run on the names is
-- clean.
pub record IsSuccess (std : StdLib) (code_of : Bytes → Option ℕ) (open_file : Bytes → Option Bytes)
    (workers : List Bytes → List Worker) (path : Bytes) (limit : ℕ) (expect : Bytes) : Type 0 where
  pub given : path ≢ []
  pub content : Bytes
  pub opened : open_file path ≡ some content
  pub names : List Bytes
  pub read : read_names std limit content ≡ some names
  pub some_names : names ≢ []
  pub want : Option ℕ
  pub known : expected code_of expect ≡ some want
  pub all_sent : length names ≤ total_taken (workers names) + capacity (length (workers names))
  pub clean : All (IsClean want) (workers names)
