-- ===== src/Toasts/Timers.antt =====
-- What each action makes of the toasts and of the timers.
use infrgate.Prelude.{
  ℕ, ◌+◌, ◌≤◌, ◌≡◌, refl, Bool, false, not, ◌||◌, Option, none, some, List, [], ◌∷◌, map, filter,
  arith, inl, inr, Bool-cases, if◌then◌else◌,
}
use infrgate.Prelude.Text.{Text}
use infrgate.Prelude.Eq.{◌==◌, ==_refl, List-eq, list_eq_iff}
use infrgate.Prelude.Dict.{Dict, lookup, lookup-insert}
use infrgate.Toasts.{
  ToasterToast, toast_remove_delay, add_to_remove_queue, queue_all, queue_removals,
}

module _ {N : Type 0} where
  -- a toast with the id is there
  abbrev pub shows : Text → List (ToasterToast N) → Bool
  shows id [] = false
  shows id (t ∷ ts) = t.id == id || shows id ts

  pub shows-map :
      (f : ToasterToast N → ToasterToast N) (id : Text) (ts : List (ToasterToast N))
      → ((t : ToasterToast N) → (f t).id ≡ t.id)
      → shows id (map f ts) ≡ shows id ts
  shows-map f id [] same = refl
  shows-map f id (t ∷ ts) same = ground (arith, same t, shows-map f id ts same)

  pub shows-filter :
      (j id : Text) (ts : List (ToasterToast N))
      → shows id (filter (λ t. not (t.id == j)) ts) ≡ (if j == id then false else shows id ts)
  shows-filter j id [] = ground arith
  shows-filter j id (t ∷ ts) =
      ground
        (arith, list_eq_iff j id, list_eq_iff t.id j, list_eq_iff t.id id, shows-filter j id ts)

-- A timer that is set is due by a time.
abbrev pub IsDueBy : ℕ → Option ℕ → Type 0
IsDueBy b none = Unit
IsDueBy b (some due) = due ≤ b

-- A timer is set, and is due by a time.
abbrev pub IsPending : ℕ → Option ℕ → Type 0
IsPending b none = ⊥
IsPending b (some due) = due ≤ b

abbrev pub due_or : Option ℕ → ℕ → ℕ
due_or none d = d
due_or (some due) d = due

lookup-add_to_remove_queue :
    (now : ℕ) (j id : Text) (m : Dict Text ℕ)
    → lookup id (add_to_remove_queue now j m)
      ≡ (if j == id then some (due_or (lookup id m) (now + toast_remove_delay)) else lookup id m)
unfolding add_to_remove_queue
lookup-add_to_remove_queue now j id m =
    ground (arith, list_eq_iff j id, lookup-insert j id (now + toast_remove_delay) m)

-- What holds of the timer of an id, set or not, and of any that a queueing sets in its place, holds
-- after every queueing.
module _ (P : Option ℕ → Type 0) (now : ℕ) (id : Text)
    (keep : (o : Option ℕ) → P o → P (some (due_or o (now + toast_remove_delay)))) where
  add-keeps :
      (j : Text) (m : Dict Text ℕ) → P (lookup id m) → P (lookup id (add_to_remove_queue now j m))
  add-keeps j m h = rw (lookup-add_to_remove_queue now j id m) (elim (Bool-cases (j == id)) [
    | inl same ↦ rw same (keep (lookup id m) h)
    | inr other ↦ rw other h
  ])

  module _ {N : Type 0} where
    queue_all-keeps :
        (ts : List (ToasterToast N)) (m : Dict Text ℕ)
        → P (lookup id m)
        → P (lookup id (queue_all now ts m))
    unfolding queue_all
    queue_all-keeps [] m h = h
    queue_all-keeps (t ∷ ts) m h =
        queue_all-keeps ts (add_to_remove_queue now t.id m) (add-keeps t.id m h)

    pub queue_removals-keeps :
        (j : Option Text) (ts : List (ToasterToast N)) (m : Dict Text ℕ)
        → P (lookup id m)
        → P (lookup id (queue_removals now j ts m))
    unfolding queue_removals
    queue_removals-keeps none ts m h = queue_all-keeps ts m h
    queue_removals-keeps (some []) ts m h = queue_all-keeps ts m h
    queue_removals-keeps (some (c ∷ j)) ts m h = add-keeps (c ∷ j) m h

pub IsPending-keep :
    (b now : ℕ) (o : Option ℕ)
    → IsPending b o
    → IsPending b (some (due_or o (now + toast_remove_delay)))
IsPending-keep b now none h = absurd h
IsPending-keep b now (some due) h = h

pub IsDueBy-keep :
    (b now : ℕ)
    → now + toast_remove_delay ≤ b
    → (o : Option ℕ) → IsDueBy b o
    → IsDueBy b (some (due_or o (now + toast_remove_delay)))
IsDueBy-keep b now early none h = early
IsDueBy-keep b now early (some due) h = h

-- A dismissal by an id that is not empty leaves the id's timer set.
pub queue_removals-IsPending :
    {N : Type 0} (b now c : ℕ) (id : Text) (ts : List (ToasterToast N)) (m : Dict Text ℕ)
    → now + toast_remove_delay ≤ b
    → IsDueBy b (lookup (c ∷ id) m)
    → IsPending b (lookup (c ∷ id) (queue_removals now (some (c ∷ id)) ts m))
unfolding queue_removals
queue_removals-IsPending b now c id ts m early h =
    rw (lookup-add_to_remove_queue now (c ∷ id) (c ∷ id) m, ==_refl (c ∷ id))
      (IsDueBy-keep b now early (lookup (c ∷ id) m) h)
