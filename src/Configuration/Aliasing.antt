-- ===== src/Configuration/Aliasing.antt =====
-- A copy of a configuration, the settings that are made on it, and the configuration it was made of.
use mathlib.Core.Option
use barq_native.Prelude.{
  ℕ, ◌<◌, ◌≡◌, ◌≢◌, refl, sym, ap, ◌∙◌, Bool, true, false, Option, some, List, [], ◌∷◌,
  if◌then◌else◌, Option-cases, inl, inr, arith,
}
use barq_native.Configuration.{
  Given, Ending, returned, logic_error, undefined, continue, Memory, SyncConfig, copy, through_sync,
  Setting, set_sync_config, http_headers, proxy, reset_handler, set, run, set_custom_http_headers,
  set_proxy_config, set_client_reset_handler, before_client_reset, after_client_reset,
  set_client_reset_mode, to_core_proxy,
}

module _ (G : Given) where
  -- The configuration for sync that the configuration at p points to
  abbrev pub sync_of : Memory G → ℕ → Option (SyncConfig G)
  sync_of mem p = Option.map mem.syncs (mem.files p).sync_config

  abbrev pub IsKeeping : Setting G → Type 0
  IsKeeping (set_sync_config s) = ⊥
  IsKeeping x = Unit

  -- No setting of another configuration for sync is among them.
  abbrev pub KeepsSync : List (Setting G) → Type 0
  KeepsSync [] = Unit
  KeepsSync (x ∷ xs) = IsKeeping x × KeepsSync xs

  -- From one memory to another, no BarqConfig but the one at p changed, and that still points to
  -- the same SyncConfig.
  record Kept (p : ℕ) (mem mem' : Memory G) : Type 0 where
    others : (q : ℕ) → q ≢ p → mem'.files q ≡ mem.files q
    pointer : (mem'.files p).sync_config ≡ (mem.files p).sync_config

  Kept-continue :
      {p : ℕ} {mem mem' : Memory G} (ending : Ending) (rest : Memory G × Ending)
      → Kept p mem mem'
      → Kept p mem' rest.0
      → Kept p mem (continue mem' ending rest).0
  Kept-continue returned rest h k = record {
    others = λ q d. k.others q d ∙ h.others q d;
    pointer = k.pointer ∙ h.pointer;
  }
  Kept-continue logic_error rest h k = h
  Kept-continue undefined rest h k = h

  through_sync-Kept :
      (ending : Ending) (f : SyncConfig G → SyncConfig G) (p : ℕ) (mem : Memory G)
      → Kept p mem (through_sync G ending f p mem).0
  unfolding through_sync
  through_sync-Kept ending f p mem =
      let files : (through_sync G ending f p mem).0.files ≡ mem.files =
        elim (Option-cases (mem.files p).sync_config) [
          | inl e ↦ rw (through_sync, e) refl
          | inr (a, e) ↦ rw (through_sync, e) refl
        ] in
      record { others = λ q d. ap (λ f. f q) files; pointer = ap (λ f. (f p).sync_config) files }

  set-Kept : (x : Setting G) (p : ℕ) (mem : Memory G) → IsKeeping x → Kept p mem (set G x p mem).0
  unfolding set set_custom_http_headers set_proxy_config set_client_reset_handler
      before_client_reset after_client_reset set_client_reset_mode
  set-Kept (set_sync_config s) p mem k = absurd k
  set-Kept (http_headers headers) p mem k =
      through_sync-Kept logic_error (λ c. record c { custom_http_headers = some headers }) p mem
  set-Kept (proxy config) p mem k =
      through_sync-Kept logic_error (λ c. record c { proxy_config = some (to_core_proxy config) }) p
        mem
  set-Kept (reset_handler handler) p mem k =
      let (mem₁, e₁) = before_client_reset G handler.before p mem in
      let (mem₂, e₂) = after_client_reset G handler.after p mem₁ in
      Kept-continue e₁ (continue mem₂ e₂ (set_client_reset_mode G handler.mode p mem₂))
        (through_sync-Kept undefined
          (λ c. record c { notify_before_client_reset = some handler.before }) p mem)
        (Kept-continue e₂ (set_client_reset_mode G handler.mode p mem₂)
          (through_sync-Kept undefined
            (λ c. record c { notify_after_client_reset = some handler.after }) p mem₁)
          (through_sync-Kept undefined (λ c. record c { client_resync_mode = handler.mode }) p
            mem₂))
  set-Kept x p mem k = record { others = λ q d. ground arith; pointer = ground arith }

  run-Kept :
      (xs : List (Setting G)) (p : ℕ) (mem : Memory G)
      → KeepsSync xs
      → Kept p mem (run G xs p mem).0
  unfolding run
  run-Kept [] p mem k = record { others = λ q d. refl; pointer = refl }
  run-Kept (x ∷ xs) p mem k =
      let (mem', ending) = set G x p mem in
      Kept-continue ending (run G xs p mem') (set-Kept x p mem k.0) (run-Kept xs p mem' k.1)

  -- After a copy was made of a configuration and settings other than set_sync_config were called
  -- on the copy, both have the same settings for sync. With generated bridge types, the rest of
  -- the original is as it was; without them, it is as if the settings had been called on the
  -- original.
  pub copy-shares :
      (generated : Bool) (p : ℕ) (mem : Memory G) (xs : List (Setting G))
      → p < mem.next
      → KeepsSync xs
      → (sync_of (run G xs (copy G generated p mem).0 (copy G generated p mem).1).0 p
          ≡ sync_of
              (run G xs (copy G generated p mem).0 (copy G generated p mem).1).0
              (copy G generated p mem).0)
        × ((run G xs (copy G generated p mem).0 (copy G generated p mem).1).0.files p
            ≡ (if generated then mem.files p else (run G xs p mem).0.files p))
  unfolding copy
  copy-shares true p mem xs h k =
      let made = copy G true p mem in
      let kept = run-Kept xs made.0 made.1 k in
      let others : (run G xs made.0 made.1).0.files p ≡ mem.files p =
        kept.others p (λ e. omega arith) ∙ ground arith in
      let pointer : ((run G xs made.0 made.1).0.files p).sync_config
          ≡ ((run G xs made.0 made.1).0.files made.0).sync_config =
        ap (λ c. c.sync_config) others ∙ sym (kept.pointer ∙ ground arith) in
      (ap (Option.map (run G xs made.0 made.1).0.syncs) pointer, others)
  copy-shares false p mem xs h k = (refl, refl)
