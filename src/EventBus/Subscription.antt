-- ===== src/EventBus/Subscription.antt =====
-- Subscribe adds one subscriber to one type.
use native.Mathlib.Decide.{ℕ_discrete}
use mmo_server.Common.{
  ℕ, ◌+◌, ◌%◌, ◌^◌, ◌<◌, ◌≤◌, ◌≡◌, ◌≢◌, sym, ap, ap₂, ◌∙◌, subst, ◌⊎◌, inl, inr, true, Option, none,
  some, List, [], ◌∷◌, ◌++◌, arith, count, count-append, update, update_self, update_ne,
  if◌then◌else◌,
}
use mmo_server.EventBus.{
  HandlerEntry, EventBus, active_only, rebuild_snapshot, list_of, subscribe_internal,
}
use mmo_server.EventBus.Subscribers.{entries_at, Serves, entries_at-append, entries_at-away}

-- The list of a type after one of a type is written.
pub list_update :
    (H : ℕ → Option (List ℕ)) (t u : ℕ) (l : List ℕ)
    → ((t ≡ u) × (list_of (update H t (some l) u) ≡ l))
      ⊎ ((t ≢ u) × (list_of (update H t (some l) u) ≡ list_of (H u)))
list_update H t u l = elim (ℕ_discrete t u) [
  | yes e ↦ inl (e, ap list_of (ap (update H t (some l)) (sym e) ∙ update_self H t (some l)))
  | no ne ↦ inr (ne, ap list_of (update_ne H t u (some l) ne))
]

-- The bus after a list of a type is stored and its snapshot built.
abbrev pub stored : EventBus → ℕ → (ℕ → HandlerEntry) → List ℕ → ℕ → ℕ → EventBus
stored b t e l n i = record {
  entries = e;
  allocated = n;
  handlers = update b.handlers t (some l);
  snapshots = update b.snapshots t (some (active_only e l));
  next_id = i;
}

pub subscribe-stored :
    (b : EventBus) (t fn : ℕ)
    → (subscribe_internal b t fn).1
      ≡ stored b t
          (update b.entries b.allocated (record { id = b.next_id; fn = fn; active = true }))
          (list_of (b.handlers t) ++ b.allocated ∷ [])
          (b.allocated + 1)
          ((b.next_id + 1) % 2 ^ 64)
unfolding subscribe_internal rebuild_snapshot
subscribe-stored b t fn =
    ap
      (λ o. elim o [
        | none ↦ s
        | some l ↦ record s { snapshots = update s.snapshots t (some (active_only s.entries l)) }
      ])
      (update_self b.handlers t (some (list_of (b.handlers t) ++ b.allocated ∷ [])))
  where
    s : EventBus
    s = record b {
      entries = update b.entries b.allocated (record { id = b.next_id; fn = fn; active = true });
      allocated = b.allocated + 1;
      handlers = update b.handlers t (some (list_of (b.handlers t) ++ b.allocated ∷ []));
      next_id = (b.next_id + 1) % 2 ^ 64;
    }

pub subscribe-Serves :
    (b : EventBus) (subs : ℕ → List (ℕ × ℕ)) (next t fn : ℕ)
    → next + 1 < 2 ^ 64
    → Serves b subs next
    → Serves (subscribe_internal b t fn).1 (update subs t (subs t ++ (next, fn) ∷ [])) (next + 1)
subscribe-Serves b subs next t fn room v =
    subst (λ x. Serves x (update subs t (subs t ++ (next, fn) ∷ [])) (next + 1))
      (sym (subscribe-stored b t fn))
      (record {
        served = served;
        synced = synced;
        owner = update v.owner c t;
        owned = owned;
        stored = below;
        base = v.base;
        base_bound = omega (arith, v.base_bound);
        based = based;
        numbered = numbered;
        next_number = omega (arith, v.next_number, v.number, room);
        number = omega (arith, v.number);
      })
  where
    c : ℕ
    c = b.allocated

    new : HandlerEntry
    new = record { id = b.next_id; fn = fn; active = true }

    l : List ℕ
    l = list_of (b.handlers t)

    new_here : (u : ℕ) → count c (list_of (b.handlers u)) ≡ 0
    new_here u = elim (ℕ_discrete (count c (list_of (b.handlers u))) 0) [
      | yes z ↦ z
      | no nz ↦ absurd (omega (arith, v.stored u c nz))
    ]

    served :
        (u : ℕ)
        → entries_at (update b.entries c new) (list_of (update b.handlers t (some (l ++ c ∷ [])) u))
          ≡ update subs t (subs t ++ (next, fn) ∷ []) u
    served u = elim (list_update b.handlers t u (l ++ c ∷ [])) [
      | inl (e, h) ↦
          ap (entries_at (update b.entries c new)) h
          ∙ entries_at-append (update b.entries c new) l (c ∷ [])
          ∙ ap₂ (λ x y. x ++ y) ((entries_at-away b.entries c new l (new_here t)).0 ∙ v.served t)
              (ap
                  (λ x.
                    if HandlerEntry.active x
                    then (HandlerEntry.id x, HandlerEntry.fn x) ∷ []
                    else [])
                  (update_self b.entries c new)
                ∙ ap (λ i. (i, fn) ∷ []) (sym v.number))
          ∙ sym (update_self subs t (subs t ++ (next, fn) ∷ []))
          ∙ ap (update subs t (subs t ++ (next, fn) ∷ [])) e
      | inr (ne, h) ↦
          ap (entries_at (update b.entries c new)) h
          ∙ (entries_at-away b.entries c new (list_of (b.handlers u)) (new_here u)).0
          ∙ v.served u
          ∙ sym (update_ne subs t u (subs t ++ (next, fn) ∷ []) ne)
    ]

    synced :
        (u : ℕ)
        → list_of
            (update b.snapshots t (some (active_only (update b.entries c new) (l ++ c ∷ []))) u)
          ≡ active_only
              (update b.entries c new)
              (list_of (update b.handlers t (some (l ++ c ∷ [])) u))
    synced u = elim (list_update b.handlers t u (l ++ c ∷ [])) [
      | inl (e, h) ↦
          elim (list_update b.snapshots t u (active_only (update b.entries c new) (l ++ c ∷ []))) [
            | inl (_, k) ↦ k ∙ ap (active_only (update b.entries c new)) (sym h)
            | inr (ne, _) ↦ absurd (ne e)
          ]
      | inr (ne, h) ↦
          elim (list_update b.snapshots t u (active_only (update b.entries c new) (l ++ c ∷ []))) [
            | inl (e, _) ↦ absurd (ne e)
            | inr (_, k) ↦
                k
                ∙ v.synced u
                ∙ sym (entries_at-away b.entries c new (list_of (b.handlers u)) (new_here u)).1
                ∙ ap (active_only (update b.entries c new)) (sym h)
          ]
    ]

    in_list : (a : ℕ) → count a (l ++ c ∷ []) ≢ 0 → (c ≡ a) ⊎ (count a l ≢ 0)
    in_list a h = elim (ℕ_discrete c a) [
      | yes e ↦ inl e
      | no ne ↦ inr (λ z. h (count-append a l (c ∷ []) ∙ ground (arith, z, ne)))
    ]

    owned :
        (u a : ℕ)
        → count a (list_of (update b.handlers t (some (l ++ c ∷ [])) u)) ≢ 0
        → update v.owner c t a ≡ u
    owned u a h = elim (list_update b.handlers t u (l ++ c ∷ [])) [
      | inl (e, k) ↦ elim (in_list a (λ z. h (ap (count a) k ∙ z))) [
        | inl same ↦ ap (update v.owner c t) (sym same) ∙ update_self v.owner c t ∙ e
        | inr held ↦
            update_ne v.owner c a t (λ z. omega (arith, v.stored t a held, z))
            ∙ v.owned t a held
            ∙ e
      ]
      | inr (ne, k) ↦
          let held : count a (list_of (b.handlers u)) ≢ 0 = λ z. h (ap (count a) k ∙ z) in
          update_ne v.owner c a t (λ z. omega (arith, v.stored u a held, z)) ∙ v.owned u a held
    ]

    below :
        (u a : ℕ) → count a (list_of (update b.handlers t (some (l ++ c ∷ [])) u)) ≢ 0 → a < c + 1
    below u a h = elim (list_update b.handlers t u (l ++ c ∷ [])) [
      | inl (e, k) ↦ elim (in_list a (λ z. h (ap (count a) k ∙ z))) [
        | inl same ↦ omega (arith, same)
        | inr held ↦ omega (arith, v.stored t a held)
      ]
      | inr (ne, k) ↦ omega (arith, v.stored u a (λ z. h (ap (count a) k ∙ z)))
    ]

    based :
        (u a : ℕ) → count a (list_of (update b.handlers t (some (l ++ c ∷ [])) u)) ≢ 0 → v.base ≤ a
    based u a h = elim (list_update b.handlers t u (l ++ c ∷ [])) [
      | inl (e, k) ↦ elim (in_list a (λ z. h (ap (count a) k ∙ z))) [
        | inl same ↦ omega (arith, same, v.base_bound)
        | inr held ↦ v.based t a held
      ]
      | inr (ne, k) ↦ v.based u a (λ z. h (ap (count a) k ∙ z))
    ]

    numbered : (a : ℕ) → v.base ≤ a → a < c + 1 → (update b.entries c new a).id + v.base ≡ a + 1
    numbered a from h = elim (ℕ_discrete c a) [
      | yes e ↦
          ap (λ x. HandlerEntry.id x + v.base)
            (ap (update b.entries c new) (sym e) ∙ update_self b.entries c new)
          ∙ omega (arith, v.next_number, e)
      | no ne ↦
          ap (λ x. HandlerEntry.id x + v.base) (update_ne b.entries c a new ne)
          ∙ v.numbered a from (omega (arith, ne, h))
    ]
