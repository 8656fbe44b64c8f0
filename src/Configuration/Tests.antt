-- ===== src/Configuration/Tests.antt =====
-- A process with one configuration, which is at 0 and has the configuration for sync at 5.
use barq_native.Prelude.{ℕ, ◌≡◌, refl, inl, Bool, true, false, none, some, List, [], ◌∷◌, arith}
use barq_native.Prelude.Bytes.{Bytes}
use barq_native.Database.{CoreFile, CoreIndexes}
use barq_native.Configuration.{
  Given, logic_error, immutable, manual, recover, live_indefinitely, ProxyConfig, FileConfig,
  Memory, SyncConfig, Setting, set_path, set_sync_config, http_headers, proxy, reset_handler,
  ResetHandler, run, copy,
}
use barq_native.Configuration.Sequences.{observed, run-expected_run}
use barq_native.Configuration.Aliasing.{sync_of, copy-shares}
use barq_native.Configuration.Opening.{
  core_logger, System, open_db, opened_file, open_db-config, open_db-read_only,
}

abbrev given : Given
given = record {
  Schema = List Bytes;
  Headers = List (Bytes × Bytes);
  Compaction = ℕ;
  Scheduler = ℕ;
  ErrorHandler = ℕ;
  BeforeReset = ℕ;
  AfterReset = ℕ;
}

abbrev synced : FileConfig given
synced = record {
  cache = true;
  path = 97 ∷ [];
  scheduler = 1;
  schema = none;
  schema_mode = immutable;
  schema_version = 0;
  encryption_key = [];
  should_compact_on_launch_function = none;
  force_sync_history = false;
  sync_config = some 5;
}

abbrev sync : SyncConfig given
sync = record {
  stop_policy = live_indefinitely;
  error_handler = none;
  custom_http_headers = none;
  proxy_config = none;
  client_resync_mode = manual;
  notify_before_client_reset = none;
  notify_after_client_reset = none;
}

abbrev memory : Memory given
memory = record { files = λ p. synced; syncs = λ a. sync; next = 6 }

abbrev through_port : ProxyConfig
through_port = record { address = 98 ∷ []; port = 8080; username_password = some ([], []) }

abbrev handler : ResetHandler given
handler = record { before = 1; after = 2; mode = recover }

abbrev settings : List (Setting given)
settings = set_path (99 ∷ []) ∷ reset_handler handler ∷ proxy through_port ∷ http_headers [] ∷ []

-- The proxy cannot be set when there is no configuration for sync, and nothing after it is set.
abbrev local_settings : List (Setting given)
local_settings =
    reset_handler handler
    ∷ set_sync_config none
    ∷ proxy through_port
    ∷ set_sync_config (some 5)
    ∷ []

local_settings-logic_error : (run given local_settings 0 memory).1 ≡ logic_error
unfolding run
local_settings-logic_error = refl

run-expected_run_example :
    observed given 0 (run given local_settings 0 memory) ≡ (false, logic_error)
run-expected_run_example = run-expected_run given local_settings 0 memory

settings_of_the_copy : (run given settings 6 (copy given true 0 memory).1).0.files 0 ≡ synced
unfolding run copy
settings_of_the_copy = refl

copy-shares_example :
    (sync_of given (run given settings 6 (copy given true 0 memory).1).0 0
      ≡ sync_of given (run given settings 6 (copy given true 0 memory).1).0 6)
    × ((run given settings 6 (copy given true 0 memory).1).0.files 0 ≡ synced)
unfolding copy
copy-shares_example =
    copy-shares given true 0 memory settings (omega arith) (tt, (tt, (tt, (tt, tt))))

abbrev file : CoreFile
file = record {
  State = List Bytes;
  begin_transaction = λ s. (s, true);
  commit_transaction = λ s. (s, true);
  cancel_transaction = λ s. (s, true);
  is_frozen = λ s. false;
}

abbrev indexes : CoreIndexes file
indexes = record {
  is_valid = λ name s. true;
  vector_index = λ name s col. none;
  add_vector_index = λ name entry s. (name ∷ s, true);
}

-- The file is the paths that were opened.
abbrev get_shared_barq : FileConfig given → List Bytes → List Bytes × Bool
get_shared_barq c s = (c.path ∷ s, true)

abbrev system : System given file indexes get_shared_barq
system = record {
  memory = memory;
  process = record { initialized = false; default_logger = core_logger };
  file = [];
}

abbrev dogs : List Bytes
dogs = (100 ∷ []) ∷ []

open_db-config_example :
    (open_db given file indexes get_shared_barq false [] dogs [] 0 system).0.memory.files 0
    ≡ record synced { schema = some dogs }
open_db-config_example =
    open_db-config given file indexes get_shared_barq false [] dogs [] 0 system (omega arith)

open_db-read_only_example :
    opened_file given file indexes get_shared_barq
      (open_db given file indexes get_shared_barq true [] dogs [] 0 system)
    ≡ get_shared_barq (record synced { schema = some dogs }) []
open_db-read_only_example =
    open_db-read_only given file indexes get_shared_barq true [] dogs [] 0 system (inl refl)
