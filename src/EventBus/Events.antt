-- ===== src/EventBus/Events.antt =====
-- Publish while handlers subscribe and unsubscribe: the snapshot decides who may be called, and the
-- flags of its entries who still is.
use mmo_server.Common.{
  ℕ, ◌^◌, ◌<◌, ◌≡◌, ◌≢◌, refl, sym, ap, ap₂, ◌∙◌, subst, Bool, true, false, Option, none, some,
  List, [], ◌∷◌, arith, count, if◌then◌else◌,
}
use mmo_server.EventBus.{
  EventBus, construct, active_only, list_of, publish_from, publish_internal, clear,
}
use mmo_server.EventBus.Subscribers.{
  Call, subscribes, unsubscribes, meant, step, entries_at, Serves,
}
use mmo_server.EventBus.Subscription.{subscribe-Serves}
use mmo_server.EventBus.Cancellation.{unsubscribe-Serves}
use mmo_server.EventBus.Delivery.{run, new_bus-Serves}
use mmo_server.EventBus.Promise.{
  Meaning, meant_calls, deliver, turn, Event, calls, publishes, clears, new_meaning, promised,
  ids_used, ids_used-bound, meant_calls-grow, deliver-turn, deliver-grow,
}
use mmo_server.EventBus.Handlers.{subscribed, Keeps, step-Keeps, Keeps-trans, active-subscribed}

abbrev pub outcomes : (ℕ → List Call) → EventBus → List Event → List (List ℕ)
outcomes script b [] = []
outcomes script b (calls c ∷ es) = outcomes script (step b c) es
outcomes script b (publishes t ∷ es) =
    let (called, b') = publish_internal (λ fn b. run b (script fn)) b t in
    called ∷ outcomes script b' es
outcomes script b (clears ∷ es) = outcomes script (clear b) es

step-Serves :
    (b : EventBus) (m : Meaning) (c : Call)
    → (meant m.0 m.1 c).1 < 2 ^ 64
    → Serves b m.0 m.1
    → Serves (step b c) (meant m.0 m.1 c).0 (meant m.0 m.1 c).1
step-Serves b m (subscribes t fn) room v = subscribe-Serves b m.0 m.1 t fn room v
step-Serves b m (unsubscribes token) room v = unsubscribe-Serves b m.0 m.1 token v

run-Kept :
    (b : EventBus) (m : Meaning) (cs : List Call) (t : ℕ)
    → (meant_calls m cs).1 < 2 ^ 64
    → Serves b m.0 m.1
    → Serves (run b cs) (meant_calls m cs).0 (meant_calls m cs).1 × Keeps b (run b cs) t
run-Kept b m [] t room v = (v, λ a held. record { listed = held; same_id = refl; same_fn = refl })
run-Kept b m (c ∷ cs) t room v =
    let m' = meant m.0 m.1 c in
    let v' = step-Serves b m c (omega (arith, room, meant_calls-grow m' cs)) v in
    let (served, kept) = run-Kept (step b c) m' cs t room v' in
    (served, Keeps-trans (step-Keeps b m.0 m.1 c t v) kept)

-- The snapshot that is left to visit, as the entries that it holds.
data Names (b : EventBus) (t : ℕ) : List ℕ → List (ℕ × ℕ) → Type 0 where
  none_left : Names b t [] []
  next_named :
      {a id fn : ℕ} {more : List ℕ} {snapshot : List (ℕ × ℕ)}
      → count a (list_of (b.handlers t)) ≢ 0
      → (b.entries a).id ≡ id
      → (b.entries a).fn ≡ fn
      → Names b t more snapshot
      → Names b t (a ∷ more) ((id, fn) ∷ snapshot)

Names-kept :
    {b b' : EventBus} {t : ℕ} {addresses : List ℕ} {snapshot : List (ℕ × ℕ)}
    → Keeps b b' t
    → Names b t addresses snapshot
    → Names b' t addresses snapshot
Names-kept kept none_left = none_left
Names-kept kept (next_named {a} held same_id same_fn more) =
    let k = kept a held in
    next_named k.listed (k.same_id ∙ same_id) (k.same_fn ∙ same_fn) (Names-kept kept more)

Names-active :
    (b : EventBus) (t : ℕ) (xs : List ℕ)
    → ((a : ℕ) → count a xs ≢ 0 → count a (list_of (b.handlers t)) ≢ 0)
    → Names b t (active_only b.entries xs) (entries_at b.entries xs)
unfolding active_only
Names-active b t [] held = none_left
Names-active b t (a ∷ xs) held =
    by_flag (b.entries a).active (Names-active b t xs (λ c h. held c (omega (arith, h))))
  where
    by_flag :
        (on : Bool)
        → Names b t (active_only b.entries xs) (entries_at b.entries xs)
        → Names b t (if on then a ∷ active_only b.entries xs else active_only b.entries xs) (
            if on
            then ((b.entries a).id, (b.entries a).fn) ∷ entries_at b.entries xs
            else entries_at b.entries xs)
    by_flag true rest = next_named (held a (ground arith)) refl refl rest
    by_flag false rest = rest

abbrev invoke : (ℕ → List Call) → ℕ → EventBus → EventBus
invoke script fn b = run b (script fn)

-- The turn of one entry in the loop of PublishInternal, for either value of its flag.
abbrev entry_turn : (ℕ → List Call) → ℕ → List ℕ → EventBus → Bool → List ℕ × EventBus
entry_turn script a more b false = publish_from (invoke script) more b
entry_turn script a more b true =
    let (called, b') = publish_from (invoke script) more (run b (script (b.entries a).fn)) in
    ((b.entries a).fn ∷ called, b')

publish_from-turn :
    (script : ℕ → List Call) (a : ℕ) (more : List ℕ) (b : EventBus) (s : Bool)
    → (b.entries a).active ≡ s
    → publish_from (invoke script) (a ∷ more) b ≡ entry_turn script a more b s
unfolding publish_from
publish_from-turn script a more b s e =
    by_flag (b.entries a).active ∙ ap (entry_turn script a more b) e
  where
    by_flag :
        (on : Bool)
        → (elim on [
          | false ↦ publish_from (invoke script) more b
          | true ↦
              let (called, b') =
                publish_from (invoke script) more (run b (script (b.entries a).fn)) in
              ((b.entries a).fn ∷ called, b')
        ])
          ≡ entry_turn script a more b on
    by_flag false = refl
    by_flag true = refl

-- The code and its promise agree: the same handlers were called, and the bus serves the subscribers.
abbrev Agrees : {X : Type 0} → X × EventBus → X × Meaning → Type 0
Agrees x y = (x.0 ≡ y.0) × Serves x.1 y.1.0 y.1.1

loop-Agrees :
    (script : ℕ → List Call) (t : ℕ) (addresses : List ℕ) (snapshot : List (ℕ × ℕ)) (b : EventBus)
    (m : Meaning)
    → (deliver script t snapshot m).1.1 < 2 ^ 64
    → Serves b m.0 m.1
    → Names b t addresses snapshot
    → Agrees (publish_from (invoke script) addresses b) (deliver script t snapshot m)
unfolding publish_from
loop-Agrees script t [] [] b m room v none_left = (refl, v)
loop-Agrees script t [] (_ ∷ snapshot) b m room v left = elim left [ ]
loop-Agrees script t (a ∷ more) [] b m room v left = elim left [ ]
loop-Agrees script t (a ∷ more) ((id, fn) ∷ snapshot) b m room v
      (next_named held same_id same_fn left) =
    subst (λ y. Agrees (publish_from (invoke script) (a ∷ more) b) y) (sym spec)
      (subst (λ x. Agrees x (turn script t fn snapshot m (subscribed id (m.0 t)))) (sym code)
        (by_answer (subscribed id (m.0 t)) (subst (λ x. x.1.1 < 2 ^ 64) spec room)
          (λ b' m' room' v' left'. loop-Agrees script t more snapshot b' m' room' v' left')))
  where
    spec :
        deliver script t ((id, fn) ∷ snapshot) m
        ≡ turn script t fn snapshot m (subscribed id (m.0 t))
    spec = deliver-turn script t id fn snapshot m (subscribed id (m.0 t)) refl

    code :
        publish_from (invoke script) (a ∷ more) b
        ≡ entry_turn script a more b (subscribed id (m.0 t))
    code =
        publish_from-turn script a more b _
          (active-subscribed b m.0 m.1 t a v held ∙ ap (λ i. subscribed i (m.0 t)) same_id)

    by_answer :
        (s : Bool)
        → (turn script t fn snapshot m s).1.1 < 2 ^ 64
        → ((b' : EventBus) (m' : Meaning)
            → (deliver script t snapshot m').1.1 < 2 ^ 64
            → Serves b' m'.0 m'.1
            → Names b' t more snapshot
            → Agrees (publish_from (invoke script) more b') (deliver script t snapshot m'))
        → Agrees (entry_turn script a more b s) (turn script t fn snapshot m s)
    by_answer false room' rest = rest b m room' v left
    by_answer true room' rest =
        let m' = meant_calls m (script fn) in
        let (served, kept) =
          run-Kept b m (script fn) t (omega (arith, room', deliver-grow script t snapshot m')) v in
        let (same, after) = rest (run b (script fn)) m' room' served (Names-kept kept left) in
        subst
          (λ f.
            Agrees
              (
                f ∷ (publish_from (invoke script) more (run b (script f))).0,
                (publish_from (invoke script) more (run b (script f))).1,
              )
              (turn script t fn snapshot m true))
          (sym same_fn) (ap (λ l. fn ∷ l) same, after)

publish-Agrees :
    (script : ℕ → List Call) (t : ℕ) (b : EventBus) (m : Meaning)
    → (deliver script t (m.0 t) m).1.1 < 2 ^ 64
    → Serves b m.0 m.1
    → Agrees (publish_internal (invoke script) b t) (deliver script t (m.0 t) m)
unfolding publish_internal publish_from
publish-Agrees script t b m room v =
    subst (λ x. Agrees x (deliver script t (m.0 t) m)) (sym (by_list (b.snapshots t)))
      (subst (λ l. Agrees (publish_from (invoke script) l b) (deliver script t (m.0 t) m))
        (sym (v.synced t))
        (loop-Agrees script t _ _ b m room v (
          subst (Names b t (active_only b.entries (list_of (b.handlers t)))) (v.served t)
            (Names-active b t (list_of (b.handlers t)) (λ a h. h)))))
  where
    by_list :
        (o : Option (List ℕ))
        → (elim o [ none ↦ ([], b) | some addresses ↦ publish_from (invoke script) addresses b ])
          ≡ publish_from (invoke script) (list_of o) b
    by_list none = refl
    by_list (some addresses) = refl

clear-Serves :
    (b : EventBus) (m : Meaning) → Serves b m.0 m.1 → Serves (clear b) new_meaning.0 new_meaning.1
unfolding clear active_only
clear-Serves b m v = record {
  served = λ u. refl;
  synced = λ u. refl;
  owner = v.owner;
  owned = λ u a h. absurd (h refl);
  stored = λ u a h. absurd (h refl);
  base = b.allocated;
  base_bound = omega arith;
  based = λ u a h. absurd (h refl);
  numbered = λ a from h. absurd (omega (arith, from, h));
  next_number = omega arith;
  number = refl;
}

outcomes-promised :
    (script : ℕ → List Call) (b : EventBus) (m : Meaning) (es : List Event)
    → ids_used script m es < 2 ^ 64
    → Serves b m.0 m.1
    → outcomes script b es ≡ promised script m es
outcomes-promised script b m [] room v = refl
outcomes-promised script b m (calls c ∷ es) room v =
    let m' = meant m.0 m.1 c in
    outcomes-promised script (step b c) m' es room
      (step-Serves b m c (omega (arith, room, ids_used-bound script m' es)) v)
outcomes-promised script b m (publishes t ∷ es) room v =
    let m' = (deliver script t (m.0 t) m).1 in
    let (called, v') =
      publish-Agrees script t b m (omega (arith, room, ids_used-bound script m' es)) v in
    ap₂ (λ x y. x ∷ y) called
      (outcomes-promised script (publish_internal (invoke script) b t).1 m' es room v')
outcomes-promised script b m (clears ∷ es) room v =
    outcomes-promised script (clear b) new_meaning es (omega (arith, room)) (clear-Serves b m v)

-- For any sequence of Subscribe, Unsubscribe, Publish and Clear calls on a new bus, in which a handler
-- that is called itself makes the Subscribe and Unsubscribe calls that `script` lists for it, and
-- which gives out fewer than 2 ^ 64 - 1 ids, each event calls exactly the handlers that the abstract
-- bus calls, in the same order: those that were subscribed to its type when it was published, less
-- those that a handler called before them for this event has unsubscribed; a handler that is
-- subscribed meanwhile waits for the next event. Clear leaves no subscriber, and starts the ids
-- again at 1.
pub events_reach :
    (script : ℕ → List Call) (es : List Event)
    → ids_used script new_meaning es < 2 ^ 64
    → outcomes script construct es ≡ promised script new_meaning es
events_reach script es room = outcomes-promised script construct new_meaning es room new_bus-Serves
