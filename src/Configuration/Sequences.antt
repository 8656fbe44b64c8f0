-- ===== src/Configuration/Sequences.antt =====
-- How a sequence of settings ends: it depends only on whether a configuration for sync is set.
use barq_native.Prelude.{
  ℕ, ◌≡◌, refl, ap, ◌∙◌, Bool, true, false, Option, none, some, List, [], ◌∷◌, Option-cases, inl,
  inr, arith,
}
use barq_native.Configuration.{
  Given, Ending, returned, logic_error, undefined, continue, Memory, ResetHandler, to_core_proxy,
  SyncConfig, through_sync, Setting, set_sync_config, http_headers, proxy, reset_handler, set, run,
  set_custom_http_headers, set_proxy_config, set_client_reset_handler, before_client_reset,
  after_client_reset, set_client_reset_mode, ◌andthen◌,
}

abbrev pub is_set : Option ℕ → Bool
is_set none = false
is_set (some a) = true

-- A call that needs a configuration for sync
abbrev pub guarded : Ending → Bool → Bool × Ending
guarded ending true = (true, returned)
guarded ending false = (false, ending)

abbrev pub then_expected : (Bool → Bool × Ending) → (Bool → Bool × Ending) → Bool → Bool × Ending
then_expected u v b = continue (u b).0 (u b).1 (v (u b).0)

module _ (G : Given) where
  -- A setting by whether a configuration for sync is set: whether one is set then, and the ending
  abbrev pub expected : Setting G → Bool → Bool × Ending
  expected (set_sync_config s) b = (is_set s, returned)
  expected (http_headers headers) b = guarded logic_error b
  expected (proxy config) b = guarded logic_error b
  expected (reset_handler handler) b = guarded undefined b
  expected _ b = (b, returned)

  abbrev pub expected_run : List (Setting G) → Bool → Bool × Ending
  expected_run [] = λ b. (b, returned)
  expected_run (x ∷ xs) = then_expected (expected x) (expected_run xs)

  abbrev pub observed : ℕ → Memory G × Ending → Bool × Ending
  observed p (mem, ending) = (is_set (mem.files p).sync_config, ending)

  abbrev Follows : (ℕ → Memory G → Memory G × Ending) → (Bool → Bool × Ending) → Type 0
  Follows f u =
      (p : ℕ) (mem : Memory G) → observed p (f p mem) ≡ u (is_set (mem.files p).sync_config)

  continue-observed :
      (p : ℕ) (mem : Memory G) (ending : Ending) (rest : Memory G × Ending)
      → observed p (continue mem ending rest)
        ≡ continue (is_set (mem.files p).sync_config) ending (observed p rest)
  continue-observed p mem returned rest = refl
  continue-observed p mem logic_error rest = refl
  continue-observed p mem undefined rest = refl

  andthen-Follows :
      (f g : ℕ → Memory G → Memory G × Ending) (u v : Bool → Bool × Ending)
      → Follows f u
      → Follows g v
      → Follows (◌andthen◌ G f g) (then_expected u v)
  andthen-Follows f g u v hf hg p mem =
      let (mem', ending) = f p mem in
      continue-observed p mem' ending (g p mem')
      ∙ ap (continue _ ending) (hg p mem')
      ∙ ap (λ r. continue r.0 r.1 (v r.0)) (hf p mem)

  through_sync-Follows :
      (ending : Ending) (f : SyncConfig G → SyncConfig G)
      → Follows (through_sync G ending f) (guarded ending)
  unfolding through_sync
  through_sync-Follows ending f p mem = elim (Option-cases (mem.files p).sync_config) [
    | inl e ↦ rw (through_sync, e) (ap (λ s. (is_set s, ending)) e)
    | inr (a, e) ↦ rw (through_sync, e) (ap (λ s. (is_set s, returned)) e)
  ]

  twice_guarded :
      (b : Bool)
      → then_expected (guarded undefined) (then_expected (guarded undefined) (guarded undefined)) b
        ≡ guarded undefined b
  twice_guarded true = refl
  twice_guarded false = refl

  reset-Follows :
      (handler : ResetHandler G) → Follows (set_client_reset_handler G handler) (guarded undefined)
  unfolding set_client_reset_handler before_client_reset after_client_reset set_client_reset_mode
  reset-Follows handler p mem =
      andthen-Follows (before_client_reset G handler.before)
        (◌andthen◌ G (after_client_reset G handler.after) (set_client_reset_mode G handler.mode))
        (guarded undefined) (then_expected (guarded undefined) (guarded undefined))
        (through_sync-Follows undefined
          λ c. record c { notify_before_client_reset = some handler.before })
        (andthen-Follows (after_client_reset G handler.after) (set_client_reset_mode G handler.mode)
          (guarded undefined) (guarded undefined)
          (through_sync-Follows undefined
            λ c. record c { notify_after_client_reset = some handler.after })
          (through_sync-Follows undefined λ c. record c { client_resync_mode = handler.mode }))
        p mem
      ∙ twice_guarded _

  set-Follows : (x : Setting G) → Follows (set G x) (expected x)
  unfolding set set_custom_http_headers set_proxy_config
  set-Follows (http_headers headers) =
      through_sync-Follows logic_error λ c. record c { custom_http_headers = some headers }
  set-Follows (proxy config) =
      through_sync-Follows logic_error λ c. record c { proxy_config = some (to_core_proxy config) }
  set-Follows (reset_handler handler) = reset-Follows handler
  set-Follows x = λ p mem. ground arith

  -- Whatever is set on a configuration, and in whatever order, how the calls end and whether a
  -- configuration for sync is set then are those of a machine of one bit: the headers and the
  -- proxy throw, and a handler of client resets calls through a null pointer, exactly when none
  -- is set at that point.
  pub run-expected_run :
      (xs : List (Setting G)) (p : ℕ) (mem : Memory G)
      → observed p (run G xs p mem) ≡ expected_run xs (is_set (mem.files p).sync_config)
  unfolding run
  run-expected_run [] p mem = refl
  run-expected_run (x ∷ xs) p mem =
      andthen-Follows (set G x) (run G xs) (expected x) (expected_run xs) (set-Follows x)
        (run-expected_run xs) p mem
