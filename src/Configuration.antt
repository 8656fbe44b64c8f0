-- ===== src/Configuration.antt =====
-- src/barq_native/internal/bridge/barq.cpp: the configuration of a file, with its settings, its
-- copies and the configuration for sync that it points to. Addresses of BarqConfig and of
-- SyncConfig are numbers. `generated` says whether the bridge types are generated: then a
-- configuration has its BarqConfig in itself, otherwise it shares one by a pointer.
pub mod Sequences
pub mod Aliasing
pub mod Opening
pub mod ClientReset
mod Tests
mod ResetTests
use barq_native.Prelude.{
  ℕ, suc, Bool, true, false, ◌==◌, Option, none, some, List, [], ◌∷◌, if◌then◌else◌,
}
use barq_native.Prelude.Bytes.{Bytes}

-- What a caller sets and this code only passes on: the functions, the schemata and the headers.
pub record Given : Type 1 where
  pub Schema : Type 0
  pub Headers : Type 0
  pub Compaction : Type 0
  pub Scheduler : Type 0
  pub ErrorHandler : Type 0
  pub BeforeReset : Type 0
  pub AfterReset : Type 0

pub data SchemaMode : Type 0 where
  automatic immutable read_only soft_reset_file hard_reset_file additive_discovered : SchemaMode
  additive_explicit manual_schema : SchemaMode

pub data ClientResetMode : Type 0 where
  manual discard_unsynced recover recover_or_discard : ClientResetMode

pub data StopPolicy : Type 0 where
  immediately live_indefinitely after_changes_uploaded : StopPolicy

-- sync_config::proxy_config
pub record ProxyConfig : Type 0 where
  pub address : Bytes
  pub port : ℕ
  pub username_password : Option (Bytes × Bytes)

pub data ProxyType : Type 0 where
  http https : ProxyType

-- The SyncConfig::ProxyConfig of core
pub record CoreProxy : Type 0 where
  pub address : Bytes
  pub port : ℕ
  pub proxy_type : ProxyType

-- The core_config of set_proxy_config
unfoldable pub to_core_proxy : ProxyConfig → CoreProxy
to_core_proxy config = record { address = config.address; port = config.port; proxy_type = http }

-- How a call ends; `undefined` is a call through a null pointer.
pub data Ending : Type 0 where
  returned logic_error undefined : Ending

-- After a call that ended so: what comes next, or the state that the call left
abbrev pub continue : {A : Type 0} → A → Ending → A × Ending → A × Ending
continue s returned rest = rest
continue s logic_error rest = (s, logic_error)
continue s undefined rest = (s, undefined)

-- replace f p v is f with v at p.
abbrev pub replace {ℓ} : {A : Type ℓ} → (ℕ → A) → ℕ → A → ℕ → A
replace f p v q = if q == p then v else f q

module _ (G : Given) where
  open G use {Schema, Headers, Compaction, Scheduler, ErrorHandler, BeforeReset, AfterReset}

  -- SyncConfig of core, as far as it is set here
  pub record SyncConfig : Type 0 where
    pub stop_policy : StopPolicy
    pub error_handler : Option ErrorHandler
    pub custom_http_headers : Option Headers
    pub proxy_config : Option CoreProxy
    pub client_resync_mode : ClientResetMode
    pub notify_before_client_reset : Option BeforeReset
    pub notify_after_client_reset : Option AfterReset

  -- BarqConfig of core, as far as it is set here; sync_config is a pointer, `none` when null.
  pub record FileConfig : Type 0 where
    pub cache : Bool
    pub path : Bytes
    pub scheduler : Scheduler
    pub schema : Option Schema
    pub schema_mode : SchemaMode
    pub schema_version : ℕ
    pub encryption_key : Bytes
    pub should_compact_on_launch_function : Option Compaction
    pub force_sync_history : Bool
    pub sync_config : Option ℕ

  -- The addresses from `next` on are free.
  pub record Memory : Type 0 where
    pub files : ℕ → FileConfig
    pub syncs : ℕ → SyncConfig
    pub next : ℕ

  abbrev pub write_file : ℕ → FileConfig → Memory → Memory
  write_file p c mem = record mem { files = replace mem.files p c }

  abbrev pub write_sync : ℕ → SyncConfig → Memory → Memory
  write_sync a c mem = record mem { syncs = replace mem.syncs a c }

  -- The copy constructor gives the address of the BarqConfig of the copy.
  unfoldable pub copy : Bool → ℕ → Memory → ℕ × Memory
  copy generated p mem =
      if generated
      then (mem.next, record (write_file mem.next (mem.files p) mem) { next = suc mem.next })
      else (p, mem)

  -- operator= with a configuration at p on the left, and at q on the right
  unfoldable pub assign : Bool → ℕ → ℕ → Memory → ℕ × Memory
  assign generated p q mem =
      if generated then (p, if p == q then mem else write_file p (mem.files q) mem) else (q, mem)

  -- The constructor from a path and a scheduler, over what a BarqConfig of core starts with
  unfoldable pub make_config : FileConfig → Bytes → Scheduler → Memory → ℕ × Memory
  make_config blank file s mem =
      let c : FileConfig = record blank {
        cache = true;
        path = file;
        scheduler = s;
        schema_version = 0;
      } in
      (mem.next, record (write_file mem.next c mem) { next = suc mem.next })

  -- A write through sync_config of the configuration at p; `ending` is how it ends when that is
  -- null.
  unfoldable pub through_sync : Ending → (SyncConfig → SyncConfig) → ℕ → Memory → Memory × Ending
  through_sync ending f p mem = elim (mem.files p).sync_config [
    | none ↦ (mem, ending)
    | some a ↦ (write_sync a (f (mem.syncs a)) mem, returned)
  ]

  unfoldable pub set_custom_http_headers : Headers → ℕ → Memory → Memory × Ending
  unfolding through_sync
  set_custom_http_headers headers =
      through_sync logic_error λ c. record c { custom_http_headers = some headers }

  unfoldable pub set_proxy_config : ProxyConfig → ℕ → Memory → Memory × Ending
  unfolding through_sync
  set_proxy_config config =
      through_sync logic_error λ c. record c { proxy_config = some (to_core_proxy config) }

  unfoldable pub before_client_reset : BeforeReset → ℕ → Memory → Memory × Ending
  unfolding through_sync
  before_client_reset callback =
      through_sync undefined λ c. record c { notify_before_client_reset = some callback }

  unfoldable pub after_client_reset : AfterReset → ℕ → Memory → Memory × Ending
  unfolding through_sync
  after_client_reset callback =
      through_sync undefined λ c. record c { notify_after_client_reset = some callback }

  unfoldable pub set_client_reset_mode : ClientResetMode → ℕ → Memory → Memory × Ending
  unfolding through_sync
  set_client_reset_mode mode = through_sync undefined λ c. record c { client_resync_mode = mode }

  -- A call, and then another one when it returned
  infixr 20 ◌andthen◌
  abbrev pub ◌andthen◌ :
      (ℕ → Memory → Memory × Ending) → (ℕ → Memory → Memory × Ending) → ℕ → Memory → Memory × Ending
  (f andthen g) p mem = let (mem', ending) = f p mem in continue mem' ending (g p mem')

  -- client_reset_mode_base
  pub record ResetHandler : Type 0 where
    pub before : BeforeReset
    pub after : AfterReset
    pub mode : ClientResetMode

  unfoldable pub set_client_reset_handler : ResetHandler → ℕ → Memory → Memory × Ending
  unfolding before_client_reset after_client_reset set_client_reset_mode
  set_client_reset_handler handler =
      before_client_reset handler.before
      andthen after_client_reset handler.after
      andthen set_client_reset_mode handler.mode

  -- The calls that set something
  pub data Setting : Type 0 where
    set_path : Bytes → Setting
    set_schema : Schema → Setting
    set_schema_mode : SchemaMode → Setting
    set_scheduler : Scheduler → Setting
    set_schema_version : ℕ → Setting
    set_encryption_key : Bytes → Setting
    should_compact_on_launch : Compaction → Setting
    enable_forced_sync_history : Setting
    set_sync_config : Option ℕ → Setting
    http_headers : Headers → Setting
    proxy : ProxyConfig → Setting
    reset_handler : ResetHandler → Setting

  -- A write to the BarqConfig itself
  abbrev pub own : (FileConfig → FileConfig) → ℕ → Memory → Memory × Ending
  own f p mem = (write_file p (f (mem.files p)) mem, returned)

  unfoldable pub set : Setting → ℕ → Memory → Memory × Ending
  unfolding set_custom_http_headers set_proxy_config set_client_reset_handler
  set (set_path v) = own λ c. record c { path = v }
  set (set_schema v) = own λ c. record c { schema = some v }
  set (set_schema_mode mode) = own λ c. record c { schema_mode = mode }
  set (set_scheduler s) = own λ c. record c { scheduler = s }
  set (set_schema_version version) = own λ c. record c { schema_version = version }
  set (set_encryption_key key) = own λ c. record c { encryption_key = key }
  set (should_compact_on_launch fn) =
      own λ c. record c { should_compact_on_launch_function = some fn }
  set enable_forced_sync_history = own λ c. record c { force_sync_history = true }
  set (set_sync_config s) = own λ c. record c { sync_config = s }
  set (http_headers headers) = set_custom_http_headers headers
  set (proxy config) = set_proxy_config config
  set (reset_handler handler) = set_client_reset_handler handler

  -- Calls one after another, up to the first that does not return
  unfoldable pub run : List Setting → ℕ → Memory → Memory × Ending
  unfolding set
  run [] = λ p mem. (mem, returned)
  run (x ∷ xs) = set x andthen run xs
