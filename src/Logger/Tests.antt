-- ===== src/Logger/Tests.antt =====
-- A logger of warnings, whose threshold is changed after it was given to core.
use barq_native.Prelude.{◌≡◌, refl, Bool, true, false, some, List, [], ◌∷◌}
use barq_native.Logger.{
  debug, warn, core_debug, core_warn, core_error, from_core, CoreLevel, Logging, set_default_logger,
  log_level_for_level, Event, threshold_set, message, happen_each, let_through,
  set_default_logger-heard,
}

-- A core that lets a message through whose level is not core_debug
abbrev would_log : CoreLevel → CoreLevel → Bool
would_log threshold core_debug = false
would_log threshold level = true

abbrev warnings : Logging
warnings = record { m_level_threshold = some warn; threshold = core_warn; heard = [] }

abbrev events : List Event
events = message core_error (1 ∷ []) ∷ threshold_set debug ∷ message core_debug (2 ∷ []) ∷ []

made : set_default_logger (some warn) ≡ some warnings
unfolding set_default_logger log_level_for_level
made = refl

set_default_logger-heard_example :
    (some warn ≡ some (from_core core_warn))
    × ((happen_each would_log events warnings).heard ≡ let_through would_log core_warn events)
set_default_logger-heard_example =
    set_default_logger-heard would_log (some warn) warnings events made
