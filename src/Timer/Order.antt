-- ===== src/Timer/Order.antt =====
-- The order of the scheduled timers: the earliest deadline first, and of equal deadlines the one
-- that was scheduled first.
use mmo_server.Common.{
  ℕ, ◌+◌, ◌*◌, ◌%◌, ◌^◌, ◌≤◌, ◌<◌, ◌≡◌, ◌≢◌, refl, ap, inl, inr, true, false, Bool-cases, Option,
  none, some, List, [], ◌∷◌, ◌++◌, All, arith,
}
use mmo_server.Timer.{TimerTask, later, TimerQueue, construct, push, schedule}

pub All-map :
    (P Q : TimerTask → Type 0) (ts : List TimerTask)
    → ((t : TimerTask) → P t → Q t)
    → All P ts
    → All Q ts
All-map P Q [] f ps = tt
All-map P Q (t ∷ ts) f (p, ps) = (f t p, All-map P Q ts f ps)

abbrev pub Sorted : List TimerTask → Type 0
Sorted [] = Unit {0}
Sorted (t ∷ ts) = All (λ u. later t u ≡ false) ts × Sorted ts

abbrev pub Distinct : List TimerTask → Type 0
Distinct [] = Unit {0}
Distinct (t ∷ ts) = All (λ u. u.id ≢ t.id) ts × Distinct ts

-- The tasks are in order, their ids differ, and ids and sequence numbers are below the next ones.
pub record IsValid (q : TimerQueue) : Type 0 where
  pub sorted : Sorted q.tasks
  pub distinct : Distinct q.tasks
  pub issued : All (λ t. t.id < q.next_id) q.tasks
  pub numbered : All (λ t. t.sequence < q.next_sequence) q.tasks

pub construct-IsValid : IsValid construct
construct-IsValid = record { sorted = tt; distinct = tt; issued = tt; numbered = tt }

later_trans : (a b c : TimerTask) → later a b ≡ false → later b c ≡ false → later a c ≡ false
later_trans a b c h k = ground arith

later-flip : (a b : TimerTask) → later a b ≡ true → later b a ≡ false
later-flip a b h = ground arith

pub later-deadline : (a b : TimerTask) → later a b ≡ false → a.deadline ≤ b.deadline
later-deadline a b h = ground arith

push-All :
    (P : TimerTask → Type 0) (t : TimerTask) (us : List TimerTask)
    → P t
    → All P us
    → All P (push t us)
unfolding push
push-All P t [] p ps = (p, tt)
push-All P t (u ∷ us) p (q, qs) = elim (Bool-cases (later t u)) [
  | inl e ↦ rw e (q, push-All P t us p qs)
  | inr e ↦ rw e (p, (q, qs))
]

push-Sorted : (t : TimerTask) (us : List TimerTask) → Sorted us → Sorted (push t us)
unfolding push
push-Sorted t [] s = (tt, tt)
push-Sorted t (u ∷ us) (h, s) = elim (Bool-cases (later t u)) [
  | inl e ↦ rw e (push-All (λ v. later u v ≡ false) t us (later-flip t u e) h, push-Sorted t us s)
  | inr e ↦ rw e ((e, All-map _ _ us (λ v k. later_trans t u v e k) h), (h, s))
]

push-Distinct :
    (t : TimerTask) (us : List TimerTask)
    → All (λ u. u.id < t.id) us
    → Distinct us
    → Distinct (push t us)
unfolding push
push-Distinct t [] below s = (tt, tt)
push-Distinct t (u ∷ us) (b, bs) (h, s) = elim (Bool-cases (later t u)) [
  | inl e ↦
      rw e (
        push-All (λ v. v.id ≢ u.id) t us (λ same. omega (arith, b, same)) h,
        push-Distinct t us bs s,
      )
  | inr e ↦ rw e (
    ((λ same. omega (arith, b, same)), All-map _ _ us (λ v k same. omega (arith, k, same)) bs),
    (h, s),
  )
]

-- Schedule, with ids and sequence numbers below the point where they wrap, keeps the queue valid:
-- its tasks in order, their ids distinct.
schedule-IsValid :
    (q : TimerQueue) (now delay : ℕ) (callback : Option ℕ)
    → q.next_id + 1 < 2 ^ 64
    → q.next_sequence + 1 < 2 ^ 64
    → IsValid q
    → IsValid (schedule q now delay callback).1
unfolding schedule
schedule-IsValid q now delay none room room' v = v
schedule-IsValid q now delay (some callback) room room' v = record {
  sorted = push-Sorted _ q.tasks v.sorted;
  distinct = push-Distinct _ q.tasks v.issued v.distinct;
  issued =
      push-All (λ t. t.id < (q.next_id + 1) % 2 ^ 64) _ q.tasks (omega arith)
        (All-map _ _ q.tasks (λ t h. omega arith) v.issued);
  numbered =
      push-All (λ t. t.sequence < (q.next_sequence + 1) % 2 ^ 64) _ q.tasks (omega arith)
        (All-map _ _ q.tasks (λ t h. omega arith) v.numbered);
}

push_place :
    (t : TimerTask) (us : List TimerTask)
    → All (λ u. u.sequence < t.sequence) us
    → Sorted us
    → (before after : List TimerTask) × (push t us ≡ before ++ t ∷ after)
      × (us ≡ before ++ after)
      × All (λ u. u.deadline ≤ t.deadline) before
      × All (λ u. t.deadline < u.deadline) after
unfolding push
push_place t [] older s = ([], [], refl, refl, tt, tt)
push_place t (u ∷ us) (o, os) (h, s) = elim (Bool-cases (later t u)) [
  | inl e ↦
      let (before, after, place, parts, early, late) = push_place t us os s in
      (
        u ∷ before,
        after,
        rw e (ap (λ l. u ∷ l) place),
        ap (λ l. u ∷ l) parts,
        (ground (arith, e), early),
        late,
      )
  | inr e ↦
      let first : t.deadline < u.deadline = ground (arith, e, o) in
      (
        [],
        u ∷ us,
        rw e refl,
        refl,
        tt,
        (first, All-map _ _ us (λ v k. omega (arith, first, later-deadline u v k)) h),
      )
]

-- Schedule of a callback in a valid queue, with a delay that is not negative, puts one new task, with
-- the id that it returns and the deadline that the delay gives, behind every task that is due no later and before every task that
-- is due later; the other tasks stay as they are.
pub schedule_place :
    (q : TimerQueue) (now delay callback : ℕ)
    → IsValid q
    → (t : TimerTask) × (before after : List TimerTask) × (t.id
        ≡ (schedule q now delay (some callback)).0)
      × (t.deadline ≡ now + delay * 1000000)
      × (t.callback ≡ some callback)
      × ((schedule q now delay (some callback)).1.tasks ≡ before ++ t ∷ after)
      × (q.tasks ≡ before ++ after)
      × All (λ u. u.deadline ≤ t.deadline) before
      × All (λ u. t.deadline < u.deadline) after
unfolding schedule
schedule_place q now delay callback v =
    let (before, after, place, parts, early, late) = push_place _ q.tasks v.numbered v.sorted in
    (_, before, after, refl, refl, refl, place, parts, early, late)
