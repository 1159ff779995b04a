-- ===== src/Core/Dispatcher/Table.antt =====
-- components/core/core_command_dispatcher.cpp: the pending entries as a map from correlation ids to
-- commands.
use zigbee_gateway_v.Common.{
  ℕ, zero, suc, ◌+◌, ◌≤◌, ◌≡◌, refl, Bool, true, Option, none, some, List, [], ◌∷◌, map, arith, ltb,
  ◌==◌, if◌then◌else◌, length, get_or, set, find_index, count_if, sub_u32,
}
use zigbee_gateway_v.Core.Commands.{CoreCommand}
use zigbee_gateway_v.Core.Dispatcher.{
  PendingEntry, no_entry, waits_for, is_vacant, is_expired, expire_loop, count_down, timeout_event,
}

abbrev pub is_used : PendingEntry → Bool
is_used e = e.in_use

-- The command that waits under a correlation id.
unfoldable pub lookup : ℕ → List PendingEntry → Option CoreCommand
lookup k [] = none
lookup k (e ∷ es) = if waits_for k e then some e.command else lookup k es

-- No two entries wait for the same result.
abbrev pub Distinct : List PendingEntry → Type 0
Distinct [] = Unit {0}
Distinct (e ∷ es) = (e.in_use ≡ true → lookup e.command.correlation_id es ≡ none) × Distinct es

pub lookup-vacant :
    (k : ℕ) (es : List PendingEntry) → find_index (waits_for k) es ≡ none → lookup k es ≡ none
unfolding lookup find_index
lookup-vacant k [] h = refl
lookup-vacant k (e ∷ es) h = ground (arith, lookup-vacant k es)

pub lookup-found :
    (k : ℕ) (es : List PendingEntry) (i : ℕ)
    → find_index (waits_for k) es ≡ some i
    → lookup k es ≡ some (get_or es i no_entry).command
unfolding lookup find_index
lookup-found k [] i h = cc
lookup-found k (e ∷ es) zero h = ground arith
lookup-found k (e ∷ es) (suc i) h = ground (arith, lookup-found k es i)

module _ (c : CoreCommand) where
  abbrev pub entry_of : PendingEntry
  entry_of = record { in_use = true; command = c }

  pub lookup-store :
      (es : List PendingEntry) (i k : ℕ)
      → find_index is_vacant es ≡ some i
      → lookup c.correlation_id es ≡ none
      → lookup k (set es i entry_of) ≡ (if c.correlation_id == k then some c else lookup k es)
  unfolding lookup find_index
  lookup-store [] i k h n = cc
  lookup-store (e ∷ es) zero k h n = ground arith
  lookup-store (e ∷ es) (suc i) k h n = ground (arith, lookup-store es i k)

  pub Distinct-store :
      (es : List PendingEntry) (i : ℕ)
      → find_index is_vacant es ≡ some i
      → lookup c.correlation_id es ≡ none
      → Distinct es
      → Distinct (set es i entry_of)
  unfolding lookup find_index
  Distinct-store [] i h n d = tt
  Distinct-store (e ∷ es) zero h n d = ground arith
  Distinct-store (e ∷ es) (suc i) h n d =
      ground (arith, Distinct-store es i, lookup-store es i e.command.correlation_id)

pub lookup-clear :
    (id : ℕ) (es : List PendingEntry) (i k : ℕ)
    → find_index (waits_for id) es ≡ some i
    → Distinct es
    → lookup k (set es i no_entry) ≡ (if id == k then none else lookup k es)
unfolding lookup find_index
lookup-clear id [] i k h d = cc
lookup-clear id (e ∷ es) zero k h d = ground arith
lookup-clear id (e ∷ es) (suc i) k h d = ground (arith, lookup-clear id es i k)

pub Distinct-clear :
    (id : ℕ) (es : List PendingEntry) (i : ℕ)
    → find_index (waits_for id) es ≡ some i
    → Distinct es
    → Distinct (set es i no_entry)
unfolding lookup find_index
Distinct-clear id [] i h d = tt
Distinct-clear id (e ∷ es) zero h d = ground arith
Distinct-clear id (e ∷ es) (suc i) h d =
    ground (arith, Distinct-clear id es i, lookup-clear id es i e.command.correlation_id)

-- `expire_loop` at `now_ms` with a timeout.
module _ (now_ms timeout_ms : ℕ) where
  expire-lookup_none :
      (room count k : ℕ) (es : List PendingEntry)
      → lookup k es ≡ none
      → lookup k (expire_loop now_ms timeout_ms room count es).pending ≡ none
  unfolding lookup expire_loop
  expire-lookup_none room count k [] h = refl
  expire-lookup_none zero count k (e ∷ es) h = h
  expire-lookup_none (suc room) count k (e ∷ es) h = ground (
    arith,
    expire-lookup_none room (count_down count) k es,
    expire-lookup_none (suc room) count k es,
  )

  pub Distinct-expire :
      (room count : ℕ) (es : List PendingEntry)
      → Distinct es
      → Distinct (expire_loop now_ms timeout_ms room count es).pending
  unfolding lookup expire_loop
  Distinct-expire room count [] d = tt
  Distinct-expire zero count (e ∷ es) d = d
  Distinct-expire (suc room) count (e ∷ es) d = ground (
    arith,
    Distinct-expire room (count_down count) es,
    Distinct-expire (suc room) count es,
    expire-lookup_none (suc room) count e.command.correlation_id es,
  )

  pub length-expire :
      (room count : ℕ) (es : List PendingEntry)
      → length (expire_loop now_ms timeout_ms room count es).pending ≡ length es
  unfolding expire_loop
  length-expire room count [] = refl
  length-expire zero count (e ∷ es) = refl
  length-expire (suc room) count (e ∷ es) =
      ground (arith, length-expire room (count_down count) es, length-expire (suc room) count es)

  -- Each event answers one entry, and the counter follows.
  pub expire_counts :
      (room count : ℕ) (es : List PendingEntry)
      → count_if is_used es ≤ count
      → let r = expire_loop now_ms timeout_ms room count es in
        (length r.events ≤ room)
        × (length r.events + count_if is_used r.pending ≡ count_if is_used es)
        × (r.count + length r.events ≡ count)
  unfolding expire_loop count_if
  expire_counts room count [] h = (omega arith, omega arith, omega arith)
  expire_counts zero count (e ∷ es) h = (omega arith, omega arith, omega arith)
  expire_counts (suc room) count (e ∷ es) h =
      ground (arith, expire_counts room (count_down count) es, expire_counts (suc room) count es)

  -- A command that has waited for less than the timeout stays.
  abbrev pub unless_expired : Option CoreCommand → Option CoreCommand
  unless_expired none = none
  unless_expired (some c) = if ltb (sub_u32 now_ms c.issued_at_ms) timeout_ms then some c else none

  pub lookup-expire :
      (room count k : ℕ) (es : List PendingEntry)
      → length es ≤ room
      → Distinct es
      → lookup k (expire_loop now_ms timeout_ms room count es).pending
        ≡ unless_expired (lookup k es)
  unfolding lookup expire_loop
  lookup-expire room count k [] h d = refl
  lookup-expire zero count k (e ∷ es) h d = absurd (omega arith)
  lookup-expire (suc room) count k (e ∷ es) h d =
      ground
        (arith, lookup-expire room (count_down count) k es, lookup-expire (suc room) count k es)

  -- The commands that have waited for the timeout, in the order of the table.
  unfoldable pub expired_commands : List PendingEntry → List CoreCommand
  expired_commands [] = []
  expired_commands (e ∷ es) =
      if is_expired now_ms timeout_ms e
      then e.command ∷ expired_commands es
      else expired_commands es

  pub expire_events :
      (room count : ℕ) (es : List PendingEntry)
      → length es ≤ room
      → (expire_loop now_ms timeout_ms room count es).events
        ≡ map (timeout_event now_ms) (expired_commands es)
  unfolding expire_loop expired_commands
  expire_events room count [] h = refl
  expire_events zero count (e ∷ es) h = absurd (omega arith)
  expire_events (suc room) count (e ∷ es) h =
      ground (arith, expire_events room (count_down count) es, expire_events (suc room) count es)
