-- ===== src/Subscriptions.antt =====
-- include/barq_native/flex_sync.hpp and src/barq_native/flex_sync.cpp: the subscriptions of a file.
-- What core's subscription sets do is a parameter; `none` is an exception. The storage is that of
-- the generated bridge types.
pub mod Editing
pub mod Updates
mod Tests
use barq_native.Prelude.{◌≡◌, ◌≢◌, Bool, true, false, Option, none, some, ◌>>=◌, if◌then◌else◌}
use mathlib.Core.Option
use barq_native.Prelude.Bytes.{Bytes}

-- The states of a subscription set that the caller waits for
pub data SetState : Type 0 where
  complete error superseded awaiting : SetState

abbrev pub is_complete : SetState → Bool
is_complete complete = true
is_complete _ = false

pub record CoreSubscriptions : Type 1 where
  pub Set : Type 0
  pub Mutable : Type 0
  pub Query : Type 0
  pub Subscription : Type 0
  pub find : Bytes → Set → Option Subscription
  pub make_mutable_copy : Set → Mutable
  pub commit : Mutable → Option Set
  pub find_in : Bytes → Mutable → Option Subscription
  pub insert_or_assign : Bytes → Query → Mutable → Mutable
  pub erase : Bytes → Mutable → Mutable × Bool
  pub clear_all : Mutable → Mutable
  -- the state that the set comes to, or none for an error status
  pub get_state_change_notification : Set → Option SetState

module _ (C : CoreSubscriptions) where
  open C use {
    Set, Mutable, Query, Subscription, find_in, insert_or_assign, erase, clear_all, commit,
    make_mutable_copy, get_state_change_notification,
  }

  -- mutable_sync_subscription_set. A predicate gives a query, or throws; without one the query is
  -- that of all objects of the type.
  unfoldable pub add : Query → Bytes → Option (Query → Option Query) → Mutable → Option Mutable
  add root_query name none set = some (insert_or_assign name root_query set)
  add root_query name (some query_fn) set = do
    full_query ← query_fn root_query
    some (insert_or_assign name full_query set)

  unfoldable pub remove : Bytes → Mutable → Option Mutable
  remove name set = let (set', erased) = erase name set in if erased then some set' else none

  unfoldable pub find_mutable : Bytes → Mutable → Option Subscription
  find_mutable name set = find_in name set

  unfoldable pub clear : Mutable → Mutable
  clear set = clear_all set

  unfoldable pub update_subscription :
      Query → Bytes → Option (Query → Option Query) → Mutable → Option Mutable
  unfolding add remove
  update_subscription root_query name query_fn set = do
    set' ← remove name set
    add root_query name query_fn set'

  -- sync_subscription_set
  unfoldable pub find : Bytes → Set → Option Subscription
  find name set = C.find name set

  -- What update leaves: the set, unless it was destroyed, and the value of the future when it
  -- returned one.
  pub record Updated : Type 0 where
    pub set : Option Set
    pub future : Option Bool

  -- get_async: state == State::Complete
  unfoldable pub resolved : Option SetState → Bool
  resolved none = false
  resolved (some state) = is_complete state

  -- The old set is destroyed before the commit that makes the new one.
  unfoldable pub update : (Mutable → Option Mutable) → Set → Updated
  unfolding resolved
  update fn set = elim (fn (make_mutable_copy set)) [
    | none ↦ record { set = some set; future = none }
    | some mutable_set ↦ elim (commit mutable_set) [
      | none ↦ record { set = none; future = none }
      | some committed ↦ record {
        set = some committed;
        future = some (resolved (get_state_change_notification committed));
      }
    ]
  ]
