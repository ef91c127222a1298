-- ===== src/EventBus/Delivery.antt =====
-- Every call keeps the subscribers, so that an event reaches exactly those that are subscribed.
use mmo_server.Common.{ℕ, ◌+◌, ◌^◌, ◌<◌, ◌≡◌, refl, List, [], ◌∷◌, arith, length}
use mmo_server.EventBus.{
  EventBus, construct, active_only, subscribe_internal, unsubscribe, publish_internal,
}
use mmo_server.EventBus.Subscribers.{
  handlers_of, Call, subscribes, unsubscribes, meant, step, Serves, publish-served,
}
use mmo_server.EventBus.Subscription.{subscribe-Serves}
use mmo_server.EventBus.Cancellation.{unsubscribe-Serves}

-- The subscribers after a sequence of calls, and the bus.
abbrev pub meant_after : (ℕ → List (ℕ × ℕ)) → ℕ → List Call → ℕ → List (ℕ × ℕ)
meant_after subs next [] = subs
meant_after subs next (c ∷ cs) =
    let (subs', next') = meant subs next c in meant_after subs' next' cs

abbrev pub run : EventBus → List Call → EventBus
run b [] = b
run b (c ∷ cs) = run (step b c) cs

run-Serves :
    (b : EventBus) (subs : ℕ → List (ℕ × ℕ)) (next : ℕ) (cs : List Call)
    → next + length cs < 2 ^ 64
    → Serves b subs next
    → (next' : ℕ) × Serves (run b cs) (meant_after subs next cs) next'
run-Serves b subs next [] room v = (next, v)
run-Serves b subs next (subscribes t fn ∷ cs) room v =
    run-Serves (subscribe_internal b t fn).1 _ (next + 1) cs (omega (arith, room))
      (subscribe-Serves b subs next t fn (omega (arith, room)) v)
run-Serves b subs next (unsubscribes token ∷ cs) room v =
    run-Serves (unsubscribe b token) _ next cs (omega (arith, room))
      (unsubscribe-Serves b subs next token v)

pub new_bus-Serves : Serves construct (λ _. []) 1
unfolding active_only
new_bus-Serves = record {
  served = λ u. refl;
  synced = λ u. refl;
  owner = λ a. 0;
  owned = λ u a h. absurd (h refl);
  stored = λ u a h. absurd (h refl);
  base = 0;
  base_bound = omega arith;
  based = λ u a h. absurd (h refl);
  numbered = λ a from h. absurd (omega (arith, h));
  next_number = refl;
  number = refl;
}

-- After any sequence of Subscribe and Unsubscribe calls on a new bus, fewer than 2 ^ 64 - 1, an
-- event of any type whose handlers leave the bus alone calls exactly the handlers that are
-- subscribed to the type, in the order in which they were subscribed, and leaves the bus as it was: a
-- Subscribe adds its handler at the end of its type's list under the next id, and an Unsubscribe takes
-- the handler with the id of the token from the list of the token's type and no other.
publish_reaches :
    (invoke : ℕ → EventBus → EventBus)
    → ((f : ℕ) (b : EventBus) → invoke f b ≡ b)
    → (cs : List Call) (t : ℕ) → 1 + length cs < 2 ^ 64
    → publish_internal invoke (run construct cs) t
      ≡ (handlers_of (meant_after (λ _. []) 1 cs t), run construct cs)
publish_reaches invoke quiet cs t room =
    let (next, v) = run-Serves construct (λ _. []) 1 cs room new_bus-Serves in
    publish-served invoke quiet (run construct cs) _ next t v
