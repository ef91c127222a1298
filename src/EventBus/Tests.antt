-- ===== src/EventBus/Tests.antt =====
-- A handler that cancels a later subscriber and subscribes another one, and the theorem at it. The
-- last cancellation uses the token of a subscription from before the Clear.
use mmo_server.Common.{ℕ, ◌≡◌, List, [], ◌∷◌, arith, ◌==◌, if◌then◌else◌}
use mmo_server.EventBus.{construct}
use mmo_server.EventBus.Subscribers.{Call, subscribes, unsubscribes}
use mmo_server.EventBus.Promise.{Event, calls, publishes, clears}
use mmo_server.EventBus.Events.{outcomes, events_reach}

-- Handler 10 cancels the second subscription and subscribes handler 40.
abbrev script : ℕ → List Call
script fn =
    if fn == 10 then unsubscribes (record { id = 2; type_id = 1 }) ∷ subscribes 1 40 ∷ [] else []

abbrev events : List Event
events =
    calls (subscribes 1 10)
    ∷ calls (subscribes 1 20)
    ∷ calls (subscribes 2 50)
    ∷ calls (subscribes 1 30)
    ∷ publishes 1
    ∷ publishes 1
    ∷ publishes 2
    ∷ clears
    ∷ calls (subscribes 2 60)
    ∷ publishes 1
    ∷ calls (subscribes 1 70)
    ∷ publishes 1
    ∷ calls (unsubscribes (record { id = 2; type_id = 1 }))
    ∷ publishes 1
    ∷ []

events_reach_example :
    outcomes script construct events
    ≡ (10 ∷ 30 ∷ []) ∷ (10 ∷ 30 ∷ 40 ∷ []) ∷ (50 ∷ []) ∷ [] ∷ (70 ∷ []) ∷ [] ∷ []
events_reach_example = events_reach script events (omega arith)
