-- ===== src/EventBus/Promise.antt =====
-- The promise of the bus for handlers that subscribe and unsubscribe, told on the lists of subscribers.
use mmo_server.Common.{
  ℕ, ◌+◌, ◌≡◌, ◌≤◌, refl, sym, ap, ◌∙◌, subst, Bool, true, false, List, [], ◌∷◌, arith,
}
use mmo_server.EventBus.Subscribers.{Call, subscribes, unsubscribes, meant}
use mmo_server.EventBus.Handlers.{subscribed}

abbrev pub Meaning : Type 0
Meaning = (ℕ → List (ℕ × ℕ)) × ℕ

abbrev pub meant_calls : Meaning → List Call → Meaning
meant_calls m [] = m
meant_calls m (c ∷ cs) = meant_calls (meant m.0 m.1 c) cs

-- An event for the subscribers of a type when it is published: each one that is still subscribed when
-- its turn comes is called, and makes its calls.
abbrev pub deliver : (ℕ → List Call) → ℕ → List (ℕ × ℕ) → Meaning → List ℕ × Meaning
deliver script t [] m = ([], m)
deliver script t ((id, fn) ∷ more) m = elim (subscribed id (m.0 t)) [
  | false ↦ deliver script t more m
  | true ↦ let (called, m') = deliver script t more (meant_calls m (script fn)) in (fn ∷ called, m')
]

-- What the users of the bus do: calls, events of some type, and Clear.
pub data Event : Type 0 where
  calls : Call → Event
  publishes : ℕ → Event
  clears : Event

abbrev pub new_meaning : Meaning
new_meaning = ((λ _. []), 1)

-- The handlers that each event calls, in order.
abbrev pub promised : (ℕ → List Call) → Meaning → List Event → List (List ℕ)
promised script m [] = []
promised script m (calls c ∷ es) = promised script (meant m.0 m.1 c) es
promised script m (publishes t ∷ es) =
    let (called, m') = deliver script t (m.0 t) m in called ∷ promised script m' es
promised script m (clears ∷ es) = promised script new_meaning es

-- The ids given out from the first one on, those before each Clear included.
abbrev pub ids_used : (ℕ → List Call) → Meaning → List Event → ℕ
ids_used script m [] = m.1
ids_used script m (calls c ∷ es) = ids_used script (meant m.0 m.1 c) es
ids_used script m (publishes t ∷ es) = ids_used script (deliver script t (m.0 t) m).1 es
ids_used script m (clears ∷ es) = m.1 + ids_used script new_meaning es

-- The ids only grow.
pub meant_calls-grow : (m : Meaning) (cs : List Call) → m.1 ≤ (meant_calls m cs).1
meant_calls-grow m [] = omega arith
meant_calls-grow m (subscribes t fn ∷ cs) =
    omega (arith, meant_calls-grow (meant m.0 m.1 (subscribes t fn)) cs)
meant_calls-grow m (unsubscribes token ∷ cs) =
    meant_calls-grow (meant m.0 m.1 (unsubscribes token)) cs

-- The turn of one subscriber, for either answer to whether it is still subscribed.
abbrev pub turn : (ℕ → List Call) → ℕ → ℕ → List (ℕ × ℕ) → Meaning → Bool → List ℕ × Meaning
turn script t fn more m false = deliver script t more m
turn script t fn more m true =
    let (called, m') = deliver script t more (meant_calls m (script fn)) in (fn ∷ called, m')

pub deliver-turn :
    (script : ℕ → List Call) (t id fn : ℕ) (more : List (ℕ × ℕ)) (m : Meaning) (s : Bool)
    → subscribed id (m.0 t) ≡ s
    → deliver script t ((id, fn) ∷ more) m ≡ turn script t fn more m s
deliver-turn script t id fn more m s e =
    by_answer (subscribed id (m.0 t)) ∙ ap (turn script t fn more m) e
  where
    by_answer :
        (x : Bool)
        → (elim x [
          | false ↦ deliver script t more m
          | true ↦
              let (called, m') = deliver script t more (meant_calls m (script fn)) in
              (fn ∷ called, m')
        ])
          ≡ turn script t fn more m x
    by_answer false = refl
    by_answer true = refl

pub deliver-grow :
    (script : ℕ → List Call) (t : ℕ) (snapshot : List (ℕ × ℕ)) (m : Meaning)
    → m.1 ≤ (deliver script t snapshot m).1.1
deliver-grow script t [] m = omega arith
deliver-grow script t ((id, fn) ∷ more) m =
    subst (λ x. m.1 ≤ x.1.1) (sym (deliver-turn script t id fn more m _ refl))
      (by_answer (deliver-grow script t more) (subscribed id (m.0 t)))
  where
    by_answer :
        ((n : Meaning) → n.1 ≤ (deliver script t more n).1.1)
        → (s : Bool) → m.1 ≤ (turn script t fn more m s).1.1
    by_answer grow false = grow m
    by_answer grow true =
        omega (arith, meant_calls-grow m (script fn), grow (meant_calls m (script fn)))

pub ids_used-bound :
    (script : ℕ → List Call) (m : Meaning) (es : List Event) → m.1 ≤ ids_used script m es
ids_used-bound script m [] = omega arith
ids_used-bound script m (calls (subscribes t fn) ∷ es) =
    omega (arith, ids_used-bound script (meant m.0 m.1 (subscribes t fn)) es)
ids_used-bound script m (calls (unsubscribes token) ∷ es) =
    ids_used-bound script (meant m.0 m.1 (unsubscribes token)) es
ids_used-bound script m (publishes t ∷ es) = omega (
  arith,
  deliver-grow script t (m.0 t) m,
  ids_used-bound script (deliver script t (m.0 t) m).1 es,
)
ids_used-bound script m (clears ∷ es) = omega arith
