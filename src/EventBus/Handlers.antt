-- ===== src/EventBus/Handlers.antt =====
-- What handlers may rely on while an event is delivered: the entries of the snapshot keep their ids
-- and functions and stay in their list whatever the handlers subscribe and unsubscribe.
use native.Mathlib.Decide.{ℕ_discrete}
use mmo_server.Common.{
  ℕ, ◌≡◌, ◌≢◌, refl, sym, ap, ◌∙◌, subst, inl, inr, Bool, true, false, Bool-cases, List, [], ◌∷◌,
  ◌++◌, arith, count, count-append, update, update_ne, update_self, ◌==◌, if◌then◌else◌,
}
use mmo_server.EventBus.{
  HandlerEntry, SubscriptionToken, EventBus, list_of, subscribe_internal, deactivate, unsubscribe,
}
use mmo_server.EventBus.Subscribers.{
  Call, subscribes, unsubscribes, step, entries_at, Serves, deactivate_cases,
}
use mmo_server.EventBus.Subscription.{list_update, subscribe-stored}
use mmo_server.EventBus.Cancellation.{unsubscribe_cases}

abbrev pub subscribed : ℕ → List (ℕ × ℕ) → Bool
subscribed id [] = false
subscribed id ((i, fn) ∷ subs) = if i == id then true else subscribed id subs

-- An address of a type's list still stands there, with the same id and function.
pub record KeepsEntry (b b' : EventBus) (t a : ℕ) : Type 0 where
  pub listed : count a (list_of (b'.handlers t)) ≢ 0
  pub same_id : (b'.entries a).id ≡ (b.entries a).id
  pub same_fn : (b'.entries a).fn ≡ (b.entries a).fn

abbrev pub Keeps : EventBus → EventBus → ℕ → Type 0
Keeps b b' t = (a : ℕ) → count a (list_of (b.handlers t)) ≢ 0 → KeepsEntry b b' t a

subscribe-Keeps :
    (b : EventBus) (subs : ℕ → List (ℕ × ℕ)) (next s fn t : ℕ)
    → Serves b subs next
    → Keeps b (subscribe_internal b s fn).1 t
subscribe-Keeps b subs next s fn t v a held =
    subst (λ x. KeepsEntry b x t a) (sym (subscribe-stored b s fn))
      (record {
        listed = elim (list_update b.handlers s t (list_of (b.handlers s) ++ b.allocated ∷ [])) [
          | inl (e, h) ↦ λ z. held (
              ap (λ w. count a (list_of (b.handlers w))) (sym e)
              ∙ omega (
                arith,
                count-append a (list_of (b.handlers s)) (b.allocated ∷ []),
                sym (ap (count a) h) ∙ z,
              ))
          | inr (ne, h) ↦ λ z. held (sym (ap (count a) h) ∙ z)
        ];
        same_id = ap HandlerEntry.id same;
        same_fn = ap HandlerEntry.fn same;
      })
  where
    new : HandlerEntry
    new = record { id = b.next_id; fn = fn; active = true }

    same : update b.entries b.allocated new a ≡ b.entries a
    same = update_ne b.entries b.allocated a new (λ z. omega (arith, v.stored t a held, z))

-- The loop of Unsubscribe only clears flags.
deactivate-same :
    (id : ℕ) (xs : List ℕ) (e : ℕ → HandlerEntry) (a : ℕ)
    → ((deactivate id xs e a).id ≡ (e a).id) × ((deactivate id xs e a).fn ≡ (e a).fn)
deactivate-same id xs e a = elim (deactivate_cases id xs e) [
  | inl (same, _) ↦ (ap (λ d. HandlerEntry.id (d a)) same, ap (λ d. HandlerEntry.fn (d a)) same)
  | inr (c, _, _, same) ↦
      let off : HandlerEntry = record (e c) { active = false } in
      elim (ℕ_discrete c a) [
        | yes k ↦
            let here : update e c off a ≡ off = ap (update e c off) (sym k) ∙ update_self e c off in
            (
              ap (λ d. HandlerEntry.id (d a)) same ∙ ap HandlerEntry.id here ∙ ap (λ i. (e i).id) k,
              ap (λ d. HandlerEntry.fn (d a)) same ∙ ap HandlerEntry.fn here ∙ ap (λ i. (e i).fn) k,
            )
        | no ne ↦
            let there : update e c off a ≡ e a = update_ne e c a off ne in
            (
              ap (λ d. HandlerEntry.id (d a)) same ∙ ap HandlerEntry.id there,
              ap (λ d. HandlerEntry.fn (d a)) same ∙ ap HandlerEntry.fn there,
            )
      ]
]

unsubscribe-Keeps :
    (b : EventBus) (token : SubscriptionToken) (t : ℕ) → Keeps b (unsubscribe b token) t
unsubscribe-Keeps b token t a held = elim (unsubscribe_cases b token) [
  | inl (_, e) ↦ unchanged e
  | inr (inl (_, e)) ↦ unchanged e
  | inr (inr (l, _, e)) ↦
      let (same_id, same_fn) = deactivate-same token.id l b.entries a in
      subst (λ x. KeepsEntry b x t a) (sym e)
        (record { listed = held; same_id = same_id; same_fn = same_fn })
]
  where
    unchanged : unsubscribe b token ≡ b → KeepsEntry b (unsubscribe b token) t a
    unchanged e =
        subst (λ x. KeepsEntry b x t a) (sym e)
          (record { listed = held; same_id = refl; same_fn = refl })

pub step-Keeps :
    (b : EventBus) (subs : ℕ → List (ℕ × ℕ)) (next : ℕ) (c : Call) (t : ℕ)
    → Serves b subs next
    → Keeps b (step b c) t
step-Keeps b subs next (subscribes s fn) t v = subscribe-Keeps b subs next s fn t v
step-Keeps b subs next (unsubscribes token) t v = unsubscribe-Keeps b token t

pub Keeps-trans : {b b' b'' : EventBus} {t : ℕ} → Keeps b b' t → Keeps b' b'' t → Keeps b b'' t
Keeps-trans k k' a held =
    let first = k a held in
    let second = k' a first.listed in
    record {
      listed = second.listed;
      same_id = second.same_id ∙ first.same_id;
      same_fn = second.same_fn ∙ first.same_fn;
    }

-- An entry in a list is active exactly when its id is subscribed.
subscribed-true :
    (e : ℕ → HandlerEntry) (xs : List ℕ) (a : ℕ)
    → count a xs ≢ 0
    → (e a).active ≡ true
    → subscribed (e a).id (entries_at e xs) ≡ true
subscribed-true e [] a held on = absurd (held refl)
subscribed-true e (x ∷ xs) a held on = elim (ℕ_discrete x a) [
  | yes k ↦ ground (arith, on, ap (λ i. (e i).active) k, ap (λ i. (e i).id) k)
  | no ne ↦ let rest = subscribed-true e xs a (ground (arith, held, ne)) on in ground (arith, rest)
]

subscribed-false :
    (e : ℕ → HandlerEntry) (xs : List ℕ) (a : ℕ)
    → ((c : ℕ) → count c xs ≢ 0 → (e c).id ≡ (e a).id → a ≡ c)
    → (e a).active ≡ false
    → subscribed (e a).id (entries_at e xs) ≡ false
subscribed-false e [] a only off = refl
subscribed-false e (x ∷ xs) a only off =
    let rest = subscribed-false e xs a (λ c h. only c (omega (arith, h))) off in
    elim (ℕ_discrete (e x).id (e a).id) [
      | yes k ↦
          let same : a ≡ x = only x (ground arith) k in
          ground (arith, rest, off, ap (λ i. (e i).active) same)
      | no ne ↦ ground (arith, rest, ne)
    ]

pub active-subscribed :
    (b : EventBus) (subs : ℕ → List (ℕ × ℕ)) (next t a : ℕ)
    → Serves b subs next
    → count a (list_of (b.handlers t)) ≢ 0
    → (b.entries a).active ≡ subscribed (b.entries a).id (subs t)
active-subscribed b subs next t a v held =
    elim (Bool-cases (b.entries a).active) [
      | inl on ↦ on ∙ sym (subscribed-true b.entries (list_of (b.handlers t)) a held on)
      | inr off ↦ off ∙ sym (subscribed-false b.entries (list_of (b.handlers t)) a only off)
    ]
    ∙ ap (subscribed (b.entries a).id) (v.served t)
  where
    only :
        (c : ℕ) → count c (list_of (b.handlers t)) ≢ 0 → (b.entries c).id ≡ (b.entries a).id → a ≡ c
    only c held' same = omega (
      arith,
      v.numbered a (v.based t a held) (v.stored t a held),
      v.numbered c (v.based t c held') (v.stored t c held'),
      same,
    )
