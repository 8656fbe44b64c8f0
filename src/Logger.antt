-- ===== src/Logger.antt =====
-- include/barq_native/logger.hpp and src/barq_native/logger.cpp: the loggers of the caller, which core
-- calls through an internal_logger. `none` is a switch that ends in abort.
mod Tests
use barq_native.Prelude.{
  ℕ, ◌≡◌, refl, sym, ap, Option-cases, ◌∙◌, Bool, true, false, leb, Bool-cases, inl, inr, Option,
  none, some, List, [], ◌∷◌, ◌++◌, append_assoc, append-nil, if◌then◌else◌,
}
use barq_native.Prelude.Bytes.{Bytes}

-- logger::level
pub data Level : Type 0 where
  all trace debug detail info warn error fatal off : Level

-- util::Logger::Level
pub data CoreLevel : Type 0 where
  core_all core_trace core_debug core_detail core_info core_warn core_error core_fatal core_off :
      CoreLevel

-- The level of core, as a level of this repository
unfoldable pub from_core : CoreLevel → Level
from_core core_off = off
from_core core_fatal = fatal
from_core core_error = error
from_core core_warn = warn
from_core core_info = info
from_core core_detail = detail
from_core core_debug = debug
from_core core_trace = trace
from_core core_all = all

-- log_level_for_level, of m_level_threshold, which may be of no enumerator when it was not set
unfoldable pub log_level_for_level : Option Level → Option CoreLevel
log_level_for_level (some off) = some core_off
log_level_for_level (some fatal) = some core_fatal
log_level_for_level (some error) = some core_error
log_level_for_level (some warn) = some core_warn
log_level_for_level (some info) = some core_info
log_level_for_level (some detail) = some core_detail
log_level_for_level (some debug) = some core_debug
log_level_for_level (some trace) = some core_trace
log_level_for_level (some all) = some core_all
log_level_for_level none = none

given_back : {A : Type 0} (a b : A) → some a ≡ some b → a ≡ b
given_back a b h = cc

keeps : (k l : CoreLevel) → some k ≡ some l → some (from_core k) ≡ some (from_core l)
keeps k l h = ap (λ x. some (from_core x)) (given_back k l h)

-- A level of core that a threshold is converted to is converted back to it.
log_level_for_level-from_core :
    (m_level_threshold : Option Level) (l : CoreLevel)
    → log_level_for_level m_level_threshold ≡ some l
    → m_level_threshold ≡ some (from_core l)
unfolding log_level_for_level from_core
log_level_for_level-from_core none l h = cc
log_level_for_level-from_core (some off) l h = keeps core_off l h
log_level_for_level-from_core m_level_threshold l h = keeps _ l h

refused : {A : Type 0} {a : A} → none ≡ some a → ⊥
refused e = cc

-- A logger of the caller, and the internal_logger that core calls, with its threshold
pub record Logging : Type 0 where
  pub m_level_threshold : Option Level
  pub threshold : CoreLevel
  pub heard : List (Level × Bytes)

-- set_default_logger of a logger that heard nothing yet
unfoldable pub set_default_logger : Option Level → Option Logging
unfolding log_level_for_level
set_default_logger m_level_threshold = elim (log_level_for_level m_level_threshold) [
  | none ↦ none
  | some l ↦ some (record { m_level_threshold = m_level_threshold; threshold = l; heard = [] })
]

unfoldable pub set_level_threshold : Level → Logging → Logging
set_level_threshold l s = record s { m_level_threshold = some l }

-- internal_logger::do_log
unfoldable pub do_log : CoreLevel → Bytes → Logging → Logging
unfolding from_core
do_log level msg s = record s { heard = s.heard ++ (from_core level, msg) ∷ [] }

-- What happens: the caller sets the threshold of the logger, or core has a message.
pub data Event : Type 0 where
  threshold_set : Level → Event
  message : CoreLevel → Bytes → Event

module _ (would_log : CoreLevel → CoreLevel → Bool) where
  -- core asks its threshold before it calls do_log.
  unfoldable pub happen : Event → Logging → Logging
  unfolding set_level_threshold do_log
  happen (threshold_set l) s = set_level_threshold l s
  happen (message level msg) s = if would_log s.threshold level then do_log level msg s else s

  unfoldable pub happen_each : List Event → Logging → Logging
  unfolding happen
  happen_each [] s = s
  happen_each (e ∷ events) s = happen_each events (happen e s)

  -- The messages of a history that a threshold lets through, with their levels
  abbrev pub let_through : CoreLevel → List Event → List (Level × Bytes)
  let_through l [] = []
  let_through l (threshold_set t ∷ events) = let_through l events
  let_through l (message level msg ∷ events) =
      let rest = let_through l events in
      if would_log l level then (from_core level, msg) ∷ rest else rest

  happen_each-heard :
      (events : List Event) (s : Logging)
      → (happen_each events s).heard ≡ s.heard ++ let_through s.threshold events
  unfolding happen_each happen set_level_threshold do_log
  happen_each-heard [] s = sym (append-nil s.heard)
  happen_each-heard (threshold_set l ∷ events) s =
      happen_each-heard events (happen (threshold_set l) s)
  happen_each-heard (message level msg ∷ events) s =
      let rest = let_through s.threshold events in
      elim (Bool-cases (would_log s.threshold level)) [
        | inl b ↦
            rw (happen_each, happen, b)
              (happen_each-heard events (do_log level msg s)
                ∙ append_assoc s.heard ((from_core level, msg) ∷ []) rest)
        | inr b ↦ rw (happen_each, happen, b) (happen_each-heard events s)
      ]

  -- When a logger is given to core and the call does not abort, its threshold was set, and is
  -- that of core converted back; and over any history of messages of core and of changes of its
  -- threshold, it hears exactly the messages that core lets through at the threshold that it had
  -- at that call, in order and with their levels.
  pub set_default_logger-heard :
      (m_level_threshold : Option Level) (s : Logging) (events : List Event)
      → set_default_logger m_level_threshold ≡ some s
      → (m_level_threshold ≡ some (from_core s.threshold))
        × ((happen_each events s).heard ≡ let_through s.threshold events)
  unfolding set_default_logger
  set_default_logger-heard m_level_threshold s events h =
      elim (Option-cases (log_level_for_level m_level_threshold)) [
        | inl e ↦ absurd (refused (sym (rw (set_default_logger, e) refl) ∙ h))
        | inr (l, e) ↦
            let fresh : Logging = record {
              m_level_threshold = m_level_threshold;
              threshold = l;
              heard = [];
            } in
            let made : fresh ≡ s = given_back fresh s (sym (rw (set_default_logger, e) refl) ∙ h) in
            (
              log_level_for_level-from_core m_level_threshold l e
                  ∙ ap (λ s. some (from_core s.threshold)) made,
              happen_each-heard events s
                  ∙ ap (λ heard. heard ++ let_through s.threshold events)
                      (sym (ap (λ s. s.heard) made)),
            )
      ]
