-- ===== src/EventBus/Cancellation.antt =====
-- Unsubscribe takes one subscriber from one type.
use native.Mathlib.Decide.{ℕ_discrete}
use mmo_server.Common.{
  ℕ, ◌+◌, ◌≡◌, ◌≢◌, refl, sym, ap, ◌∙◌, subst, ◌⊎◌, inl, inr, false, none, some, Option-cases, List,
  [], arith, count, update, update_self, update_ne,
}
use mmo_server.EventBus.{
  HandlerEntry, SubscriptionToken, EventBus, active_only, rebuild_snapshot, list_of, deactivate,
  unsubscribe,
}
use mmo_server.EventBus.Subscribers.{
  without, entries_at, Serves, entries_at-away, deactivate_cases, without-none,
  entries_at-deactivated,
}
use mmo_server.EventBus.Subscription.{list_update}

-- The entries after Unsubscribe's loop: the ids stay, and other types see no change.
deactivated :
    (b : EventBus) (subs : ℕ → List (ℕ × ℕ)) (next t id : ℕ)
    → Serves b subs next
    → (e : ℕ → HandlerEntry) × (deactivate id (list_of (b.handlers t)) b.entries ≡ e)
      × ((a : ℕ) → (e a).id ≡ (b.entries a).id)
      × (entries_at e (list_of (b.handlers t)) ≡ without id (subs t))
      × ((u : ℕ)
          → t ≢ u
          → (entries_at e (list_of (b.handlers u)) ≡ subs u)
            × (active_only e (list_of (b.handlers u)) ≡ list_of (b.snapshots u)))
deactivated b subs next t id v = elim (deactivate_cases id (list_of (b.handlers t)) b.entries) [
  | inl (same, none_here) ↦ (
    b.entries,
    same,
    (λ a. refl),
    sym (without-none id b.entries (list_of (b.handlers t)) none_here)
        ∙ ap (without id) (v.served t),
    (λ u ne. (v.served u, sym (v.synced u))),
  )
  | inr (c, held, found, e) ↦
      let off : HandlerEntry = record (b.entries c) { active = false } in
      let only : (a : ℕ) → count a (list_of (b.handlers t)) ≢ 0 → (b.entries a).id ≡ id → c ≡ a =
        λ a in_list z. omega (
          arith,
          v.numbered a (v.based t a in_list) (v.stored t a in_list),
          v.numbered c (v.based t c held) (v.stored t c held),
          found,
          z,
        ) in
      (
        update b.entries c off,
        e,
        (λ a. elim (ℕ_discrete c a) [
          | yes k ↦
              ap HandlerEntry.id (ap (update b.entries c off) (sym k) ∙ update_self b.entries c off)
              ∙ ap (λ i. (b.entries i).id) k
          | no ne ↦ ap HandlerEntry.id (update_ne b.entries c a off ne)
        ]),
        entries_at-deactivated id c b.entries (list_of (b.handlers t)) found only
            ∙ ap (without id) (v.served t),
        (λ u ne.
            let (p, q) =
              entries_at-away b.entries c off (list_of (b.handlers u))
                (elsewhere b subs next t u c v ne held) in
            (p ∙ v.served u, q ∙ sym (v.synced u))),
      )
]
  where
    elsewhere :
        (b : EventBus) (subs : ℕ → List (ℕ × ℕ)) (next t u c : ℕ)
        → Serves b subs next
        → t ≢ u
        → count c (list_of (b.handlers t)) ≢ 0
        → count c (list_of (b.handlers u)) ≡ 0
    elsewhere b subs next t u c v ne held = elim (ℕ_discrete (count c (list_of (b.handlers u))) 0) [
      | yes z ↦ z
      | no nz ↦ absurd (ne (sym (v.owned t c held) ∙ v.owned u c nz))
    ]

pub unsubscribe_cases :
    (b : EventBus) (token : SubscriptionToken)
    → ((token.id ≡ 0) × (unsubscribe b token ≡ b))
      ⊎ (((b.handlers token.type_id ≡ none) × (unsubscribe b token ≡ b))
          ⊎ ((l : List ℕ) × (b.handlers token.type_id ≡ some l)
              × (unsubscribe b token ≡ record b {
                entries = deactivate token.id l b.entries;
                snapshots =
                    update b.snapshots token.type_id
                      (some (active_only (deactivate token.id l b.entries) l));
              })))
unfolding unsubscribe rebuild_snapshot
unsubscribe_cases b token = elim (ℕ_discrete token.id 0) [
  | yes z ↦ inl (z, ground (arith, z))
  | no nz ↦ elim (Option-cases (b.handlers token.type_id)) [
    | inl e ↦ inr (inl (e, ground (arith, nz, e)))
    | inr (l, e) ↦ inr (inr (l, e, ground (arith, nz, e)))
  ]
]

unchanged-Serves :
    (b : EventBus) (subs : ℕ → List (ℕ × ℕ)) (next t : ℕ) (l : List (ℕ × ℕ))
    → l ≡ subs t
    → Serves b subs next
    → Serves b (update subs t l) next
unchanged-Serves b subs next t l e v = record {
  served = λ u. v.served u ∙ same u;
  synced = v.synced;
  owner = v.owner;
  owned = v.owned;
  stored = v.stored;
  base = v.base;
  base_bound = v.base_bound;
  based = v.based;
  numbered = v.numbered;
  next_number = v.next_number;
  number = v.number;
}
  where
    same : (u : ℕ) → subs u ≡ update subs t l u
    same u = elim (ℕ_discrete t u) [
      | yes k ↦ ap subs (sym k) ∙ sym e ∙ sym (update_self subs t l) ∙ ap (update subs t l) k
      | no ne ↦ sym (update_ne subs t u l ne)
    ]

pub unsubscribe-Serves :
    (b : EventBus) (subs : ℕ → List (ℕ × ℕ)) (next : ℕ) (token : SubscriptionToken)
    → Serves b subs next
    → Serves
        (unsubscribe b token)
        (update subs token.type_id (without token.id (subs token.type_id)))
        next
unsubscribe-Serves b subs next token v = elim (unsubscribe_cases b token) [
  | inl (z, e) ↦
      subst (λ x. Serves x after next) (sym e)
        (unchanged-Serves b subs next t _
          (ap (without token.id) (sym (v.served t))
            ∙ without-none token.id b.entries (list_of (b.handlers t)) (λ a held same. omega (
              arith,
              v.numbered a (v.based t a held) (v.stored t a held),
              v.stored t a held,
              v.based t a held,
              same,
              z,
            ))
            ∙ v.served t)
          v)
  | inr (inl (empty, e)) ↦
      subst (λ x. Serves x after next) (sym e)
        (unchanged-Serves b subs next t _
          (ap (without token.id) (sym (nothing empty)) ∙ nothing empty) v)
  | inr (inr (l, some_list, e)) ↦
      let (entries, same, ids, here, elsewhere) = deactivated b subs next t token.id v in
      let listed : list_of (b.handlers t) ≡ l = ap list_of some_list in
      subst (λ x. Serves x after next)
        (sym (
          e
          ∙ ap
              (λ (en : ℕ → HandlerEntry). record b {
                entries = en;
                snapshots = update b.snapshots t (some (active_only en l));
              })
              (ap (λ m. deactivate token.id m b.entries) (sym listed) ∙ same)))
        (record {
          served = λ u. elim (ℕ_discrete t u) [
            | yes k ↦
                ap (λ w. entries_at entries (list_of (b.handlers w))) (sym k)
                ∙ here
                ∙ sym (update_self subs t (without token.id (subs t)))
                ∙ ap after k
            | no ne ↦ (elsewhere u ne).0 ∙ sym (update_ne subs t u _ ne)
          ];
          synced = λ u. elim (list_update b.snapshots t u (active_only entries l)) [
            | inl (k, h) ↦
                h ∙ ap (active_only entries) (sym listed ∙ ap (λ w. list_of (b.handlers w)) k)
            | inr (ne, h) ↦ h ∙ sym (elsewhere u ne).1
          ];
          owner = v.owner;
          owned = v.owned;
          stored = v.stored;
          base = v.base;
          base_bound = v.base_bound;
          based = v.based;
          numbered = λ a from h. ap (λ i. i + v.base) (ids a) ∙ v.numbered a from h;
          next_number = v.next_number;
          number = v.number;
        })
]
  where
    t : ℕ
    t = token.type_id

    after : ℕ → List (ℕ × ℕ)
    after = update subs t (without token.id (subs t))

    nothing : b.handlers t ≡ none → [] ≡ subs t
    nothing e = sym (ap (λ o. entries_at b.entries (list_of o)) e) ∙ v.served t
