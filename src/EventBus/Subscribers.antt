-- ===== src/EventBus/Subscribers.antt =====
-- What the bus promises: each type has a list of subscribers, and an event goes to all of them.
use native.Mathlib.Decide.{ℕ_discrete}
use mmo_server.Common.{
  ℕ, ◌+◌, ◌<◌, ◌≤◌, ◌≡◌, ◌≢◌, refl, ap, ap₂, ◌∙◌, ◌⊎◌, inl, inr, false, Bool-cases, Option, none,
  some, List, [], ◌∷◌, ◌++◌, arith, count, update, update_ne, ◌==◌, if◌then◌else◌,
}
use mmo_server.EventBus.{
  HandlerEntry, SubscriptionToken, EventBus, active_only, list_of, subscribe_internal, deactivate,
  unsubscribe, publish_from, publish_internal,
}

-- A subscriber is its id and its handler.
abbrev pub without : ℕ → List (ℕ × ℕ) → List (ℕ × ℕ)
without id [] = []
without id ((i, fn) ∷ subs) = if i == id then without id subs else (i, fn) ∷ without id subs

abbrev pub handlers_of : List (ℕ × ℕ) → List ℕ
handlers_of [] = []
handlers_of ((i, fn) ∷ subs) = fn ∷ handlers_of subs

-- The calls, and what they mean for the subscribers of each type, with the next id.
pub data Call : Type 0 where
  subscribes : ℕ → ℕ → Call
  unsubscribes : SubscriptionToken → Call

abbrev pub meant : (ℕ → List (ℕ × ℕ)) → ℕ → Call → (ℕ → List (ℕ × ℕ)) × ℕ
meant subs next (subscribes type_id fn) =
    (update subs type_id (subs type_id ++ (next, fn) ∷ []), next + 1)
meant subs next (unsubscribes token) =
    (update subs token.type_id (without token.id (subs token.type_id)), next)

abbrev pub step : EventBus → Call → EventBus
step b (subscribes type_id fn) = (subscribe_internal b type_id fn).1
step b (unsubscribes token) = unsubscribe b token

-- The entries at some addresses, as subscribers.
abbrev pub entries_at : (ℕ → HandlerEntry) → List ℕ → List (ℕ × ℕ)
entries_at entries [] = []
entries_at entries (a ∷ more) =
    if (entries a).active
    then ((entries a).id, (entries a).fn) ∷ entries_at entries more
    else entries_at entries more

-- The bus serves the subscribers `subs`: the active entries of a type are its subscribers, in order;
-- the snapshot of a type holds its active entries; an entry belongs to one type, and its id
-- counts the entries since the last Clear, whose first address is `base`.
pub record Serves (b : EventBus) (subs : ℕ → List (ℕ × ℕ)) (next : ℕ) : Type 0 where
  pub served : (t : ℕ) → entries_at b.entries (list_of (b.handlers t)) ≡ subs t
  pub synced : (t : ℕ) → list_of (b.snapshots t) ≡ active_only b.entries (list_of (b.handlers t))
  pub owner : ℕ → ℕ
  pub owned : (t a : ℕ) → count a (list_of (b.handlers t)) ≢ 0 → owner a ≡ t
  pub stored : (t a : ℕ) → count a (list_of (b.handlers t)) ≢ 0 → a < b.allocated
  pub base : ℕ
  pub base_bound : base ≤ b.allocated
  pub based : (t a : ℕ) → count a (list_of (b.handlers t)) ≢ 0 → base ≤ a
  pub numbered : (a : ℕ) → base ≤ a → a < b.allocated → (b.entries a).id + base ≡ a + 1
  pub next_number : b.next_id + base ≡ b.allocated + 1
  pub number : next ≡ b.next_id

-- Publication to a bus whose handlers leave it alone calls the active entries of the snapshot.
publish_from-active :
    (invoke : ℕ → EventBus → EventBus) (quiet : (f : ℕ) (b : EventBus) → invoke f b ≡ b)
    (b : EventBus) (addresses : List ℕ)
    → publish_from invoke (active_only b.entries addresses) b
      ≡ (handlers_of (entries_at b.entries addresses), b)
unfolding publish_from active_only
publish_from-active invoke quiet b [] = refl
publish_from-active invoke quiet b (a ∷ more) =
    ground (arith, publish_from-active invoke quiet b more, quiet (b.entries a).fn b)

pub publish-served :
    (invoke : ℕ → EventBus → EventBus) (quiet : (f : ℕ) (b : EventBus) → invoke f b ≡ b)
    (b : EventBus) (subs : ℕ → List (ℕ × ℕ)) (next t : ℕ)
    → Serves b subs next
    → publish_internal invoke b t ≡ (handlers_of (subs t), b)
unfolding publish_internal publish_from
publish-served invoke quiet b subs next t v =
    by_list (b.snapshots t)
    ∙ ap (λ l. publish_from invoke l b) (v.synced t)
    ∙ publish_from-active invoke quiet b (list_of (b.handlers t))
    ∙ ap (λ l. (handlers_of l, b)) (v.served t)
  where
    by_list :
        (o : Option (List ℕ))
        → (elim o [ none ↦ ([], b) | some addresses ↦ publish_from invoke addresses b ])
          ≡ publish_from invoke (list_of o) b
    by_list none = refl
    by_list (some addresses) = refl

pub entries_at-append :
    (e : ℕ → HandlerEntry) (xs ys : List ℕ)
    → entries_at e (xs ++ ys) ≡ entries_at e xs ++ entries_at e ys
entries_at-append e [] ys = refl
entries_at-append e (a ∷ xs) ys = elim (Bool-cases (e a).active) [
  | inl h ↦ rw h (ap (λ l. ((e a).id, (e a).fn) ∷ l) (entries_at-append e xs ys))
  | inr h ↦ rw h (entries_at-append e xs ys)
]

-- A write to an entry that a list does not hold.
pub entries_at-away :
    (e : ℕ → HandlerEntry) (c : ℕ) (v : HandlerEntry) (xs : List ℕ)
    → count c xs ≡ 0
    → (entries_at (update e c v) xs ≡ entries_at e xs)
      × (active_only (update e c v) xs ≡ active_only e xs)
unfolding active_only
entries_at-away e c v [] h = (refl, refl)
entries_at-away e c v (a ∷ xs) h =
    let same : update e c v a ≡ e a = update_ne e c a v (λ k. ground (arith, h, k)) in
    let (p, q) = entries_at-away e c v xs (omega (arith, h)) in
    (
      ap₂ (λ x l. if HandlerEntry.active x then (HandlerEntry.id x, HandlerEntry.fn x) ∷ l else l)
          same p,
      ap₂ (λ x l. if HandlerEntry.active x then a ∷ l else l) same q,
    )

-- What the loop of Unsubscribe does to the store.
pub deactivate_cases :
    (id : ℕ) (xs : List ℕ) (e : ℕ → HandlerEntry)
    → ((deactivate id xs e ≡ e) × ((a : ℕ) → count a xs ≢ 0 → (e a).id ≢ id))
      ⊎ ((c : ℕ) × (count c xs ≢ 0)
          × ((e c).id ≡ id)
          × (deactivate id xs e ≡ update e c (record (e c) { active = false })))
unfolding deactivate
deactivate_cases id [] e = inl (refl, λ a h. absurd (h refl))
deactivate_cases id (a ∷ xs) e = elim (ℕ_discrete (e a).id id) [
  | yes h ↦ inr (a, (ground arith), h, ground (arith, h))
  | no ne ↦ elim (deactivate_cases id xs e) [
    | inl (same, none_here) ↦ inl (
      ground (arith, ne, same),
      λ b held found. elim (ℕ_discrete a b) [
        | yes k ↦ ne (ap (λ i. (e i).id) k ∙ found)
        | no k ↦ none_here b (ground (arith, held, k)) found
      ],
    )
    | inr (c, held, found, e') ↦ inr (c, (omega (arith, held)), found, ground (arith, ne, e'))
  ]
]

pub without-none :
    (id : ℕ) (e : ℕ → HandlerEntry) (xs : List ℕ)
    → ((a : ℕ) → count a xs ≢ 0 → (e a).id ≢ id)
    → without id (entries_at e xs) ≡ entries_at e xs
without-none id e [] h = refl
without-none id e (a ∷ xs) h =
    let rest = without-none id e xs (λ b k. h b (omega (arith, k))) in
    let differs : (e a).id ≢ id = h a (ground arith) in ground (arith, rest, differs)

-- Deactivating an entry takes its subscriber away.
pub entries_at-deactivated :
    (id c : ℕ) (e : ℕ → HandlerEntry) (xs : List ℕ)
    → (e c).id ≡ id
    → ((a : ℕ) → count a xs ≢ 0 → (e a).id ≡ id → c ≡ a)
    → entries_at (update e c (record (e c) { active = false })) xs ≡ without id (entries_at e xs)
entries_at-deactivated id c e [] found only = refl
entries_at-deactivated id c e (a ∷ xs) found only =
    let rest = entries_at-deactivated id c e xs found (λ b k. only b (omega (arith, k))) in
    elim (ℕ_discrete c a) [
      | yes k ↦ ground (arith, rest, found, ap (λ i. (e i).id) k, k)
      | no k ↦
          let same = update_ne e c a (record (e c) { active = false }) k in
          let differs : (e a).id ≢ id = λ z. k (only a (ground arith) z) in
          ap₂
            (λ x l. if HandlerEntry.active x then (HandlerEntry.id x, HandlerEntry.fn x) ∷ l else l)
            same rest
          ∙ ground (arith, differs)
    ]
