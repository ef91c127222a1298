-- ===== src/EventBus.antt =====
-- infrastructure/EventBus: EventBus. The entries that `handlers_` and the snapshots share are a store
-- with an address each; a snapshot is the addresses that it holds. A handler is a name; what a call
-- of it does to the bus (it may subscribe, unsubscribe and publish) is the parameter `invoke`.
pub mod Subscribers
pub mod Subscription
pub mod Cancellation
pub mod Handlers
pub mod Delivery
pub mod Promise
pub mod Events
mod Tests
use mmo_server.Common.{
  ℕ, ◌+◌, ◌%◌, ◌^◌, Bool, true, false, Option, none, some, List, [], ◌∷◌, ◌++◌, update, ◌==◌,
  if◌then◌else◌,
}

pub record HandlerEntry : Type 0 where
  pub id : ℕ
  pub fn : ℕ
  pub active : Bool

pub record SubscriptionToken : Type 0 where
  pub id : ℕ
  pub type_id : ℕ

pub record EventBus : Type 0 where
  pub entries : ℕ → HandlerEntry
  pub allocated : ℕ
  pub handlers : ℕ → Option (List ℕ)
  pub snapshots : ℕ → Option (List ℕ)
  pub next_id : ℕ

abbrev pub construct : EventBus
construct = record {
  entries = λ _. record { id = 0; fn = 0; active = true };
  allocated = 0;
  handlers = λ _. none;
  snapshots = λ _. none;
  next_id = 1;
}

-- The loop of RebuildSnapshot.
unfoldable pub active_only : (ℕ → HandlerEntry) → List ℕ → List ℕ
active_only entries [] = []
active_only entries (a ∷ more) =
    let rest = active_only entries more in if (entries a).active then a ∷ rest else rest

unfoldable pub rebuild_snapshot : EventBus → ℕ → EventBus
unfolding active_only
rebuild_snapshot b type_id = elim (b.handlers type_id) [
  | none ↦ b
  | some addresses ↦ record b {
    snapshots = update b.snapshots type_id (some (active_only b.entries addresses));
  }
]

-- The list that `handlers_[type]` gives, empty for a type that is new.
abbrev pub list_of : Option (List ℕ) → List ℕ
list_of none = []
list_of (some addresses) = addresses

unfoldable pub subscribe_internal : EventBus → ℕ → ℕ → SubscriptionToken × EventBus
unfolding rebuild_snapshot
subscribe_internal b type_id fn =
    let stored = record b {
      entries = update b.entries b.allocated (record { id = b.next_id; fn = fn; active = true });
      allocated = b.allocated + 1;
      handlers =
          update b.handlers type_id (some (list_of (b.handlers type_id) ++ b.allocated ∷ []));
      next_id = (b.next_id + 1) % 2 ^ 64;
    } in
    (record { id = b.next_id; type_id = type_id }, rebuild_snapshot stored type_id)

-- The loop of Unsubscribe, which stops at the first entry with the id.
unfoldable pub deactivate : ℕ → List ℕ → (ℕ → HandlerEntry) → ℕ → HandlerEntry
deactivate id [] entries = entries
deactivate id (a ∷ more) entries =
    let rest = deactivate id more entries in
    if (entries a).id == id then update entries a (record (entries a) { active = false }) else rest

unfoldable pub unsubscribe : EventBus → SubscriptionToken → EventBus
unfolding deactivate rebuild_snapshot
unsubscribe b token = if token.id == 0 then b else elim (b.handlers token.type_id) [
  | none ↦ b
  | some addresses ↦
      rebuild_snapshot (record b { entries = deactivate token.id addresses b.entries })
        token.type_id
]

module _ (invoke : ℕ → EventBus → EventBus) where
  -- The loop of PublishInternal over the snapshot, with the handlers that were called, in order.
  unfoldable pub publish_from : List ℕ → EventBus → List ℕ × EventBus
  publish_from [] b = ([], b)
  publish_from (a ∷ more) b = elim (b.entries a).active [
    | false ↦ publish_from more b
    | true ↦
        let (called, b') = publish_from more (invoke (b.entries a).fn b) in
        ((b.entries a).fn ∷ called, b')
  ]

  unfoldable pub publish_internal : EventBus → ℕ → List ℕ × EventBus
  unfolding publish_from
  publish_internal b type_id = elim (b.snapshots type_id) [
    | none ↦ ([], b)
    | some addresses ↦ publish_from addresses b
  ]

unfoldable pub clear : EventBus → EventBus
clear b = record b { handlers = λ _. none; snapshots = λ _. none; next_id = 1 }
