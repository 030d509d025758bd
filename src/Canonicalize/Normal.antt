-- ===== src/Canonicalize/Normal.antt =====
-- The values whose keys stand in order, and what the canonical text makes of any plain value.
use infrgate.Prelude.{◌≡◌, sym, ◌≢◌, inl, inr, true, All, Bool-cases, if◌then◌else◌}
use infrgate.Prelude.Text.{Text}
use infrgate.Prelude.Eq.{List-eq}
use infrgate.Canonicalize.{
  Value, null, undefined, boolean, number, string, array, object, Items, nil, cons, Fields, end,
  field, text_leb,
}
use infrgate.Canonicalize.Reorder.{
  Same, same, same_array, same_object, SameItems, both_nil, both_cons, SameFields, both_end,
  both_field, swapped, chained,
}
use infrgate.Canonicalize.Reader.{is_key}
use infrgate.Canonicalize.Plain.{IsFresh, IsDefined, IsPlain, IsPlainItems, IsPlainFields}

unfoldable pub insert_field : Text → Value → Fields → Fields
insert_field k v end = field k v end
insert_field k v (field j w fs) =
    let later = insert_field k v fs in
    if text_leb k j then field k v (field j w fs) else field j w later

unfoldable mutual
  unfolding insert_field

  pub normal : Value → Value
  normal (array xs) = array (normal_items xs)
  normal (object fs) = object (normal_fields fs)
  normal null = null
  normal undefined = undefined
  normal (boolean b) = boolean b
  normal (number t) = number t
  normal (string s) = string s

  pub normal_items : Items → Items
  normal_items nil = nil
  normal_items (cons v xs) = cons (normal v) (normal_items xs)

  pub normal_fields : Fields → Fields
  normal_fields end = end
  normal_fields (field k v fs) = insert_field k (normal v) (normal_fields fs)

-- A new key may go in anywhere.
insert_field-IsFresh :
    (j k : Text) (v : Value) (fs : Fields) → j ≢ k → IsFresh j fs → IsFresh j (insert_field k v fs)
unfolding insert_field
insert_field-IsFresh j k v end ne h = (ne, tt)
insert_field-IsFresh j k v (field i w fs) ne h = elim (Bool-cases (text_leb k i)) [
  | inl e ↦ rw e (ne, h)
  | inr e ↦ rw e (h.0, insert_field-IsFresh j k v fs ne h.1)
]

pub normal_fields-IsFresh : (j : Text) (fs : Fields) → IsFresh j fs → IsFresh j (normal_fields fs)
unfolding normal
normal_fields-IsFresh j end h = tt
normal_fields-IsFresh j (field k v fs) h =
    insert_field-IsFresh j k (normal v) (normal_fields fs) h.0 (normal_fields-IsFresh j fs h.1)

insert_field-IsPlainFields :
    (k : Text) (v : Value) (fs : Fields)
    → All (λ c. is_key c ≡ true) k
    → IsFresh k fs
    → IsPlain v
    → IsPlainFields fs
    → IsPlainFields (insert_field k v fs)
unfolding insert_field
insert_field-IsPlainFields k v end key new p ps = (key, tt, p, tt)
insert_field-IsPlainFields k v (field j w fs) key new p ps = elim (Bool-cases (text_leb k j)) [
  | inl e ↦ rw e (key, new, p, ps)
  | inr e ↦ rw e (
    ps.0,
    insert_field-IsFresh j k v fs (λ s. new.0 (sym s)) ps.1,
    ps.2,
    insert_field-IsPlainFields k v fs key new.1 p ps.3,
  )
]

SameFields-refl : (fs : Fields) → SameFields fs fs
SameFields-refl end = both_end
SameFields-refl (field k v fs) = both_field (same v) (SameFields-refl fs)

insert_field-SameFields :
    (k : Text) (v : Value) (fs : Fields)
    → IsFresh k fs
    → SameFields (field k v fs) (insert_field k v fs)
unfolding insert_field
insert_field-SameFields k v end new = both_field (same v) both_end
insert_field-SameFields k v (field j w fs) new = elim (Bool-cases (text_leb k j)) [
  | inl e ↦ rw e (both_field (same v) (both_field (same w) (SameFields-refl fs)))
  | inr e ↦
      rw e (chained (swapped new.0) (both_field (same w) (insert_field-SameFields k v fs new.1)))
]

normal-IsDefined : (v : Value) → IsDefined v → IsDefined (normal v)
unfolding normal
normal-IsDefined null d = tt
normal-IsDefined undefined d = d
normal-IsDefined (boolean b) d = tt
normal-IsDefined (number t) d = tt
normal-IsDefined (string s) d = tt
normal-IsDefined (array xs) d = tt
normal-IsDefined (object fs) d = tt

mutual
  unfolding normal

  pub normal-IsPlain : (v : Value) → IsPlain v → IsPlain (normal v)
  normal-IsPlain null p = tt
  normal-IsPlain undefined p = tt
  normal-IsPlain (boolean b) p = tt
  normal-IsPlain (number t) p = p
  normal-IsPlain (string s) p = p
  normal-IsPlain (array xs) p = normal_items-IsPlainItems xs p
  normal-IsPlain (object fs) p = normal_fields-IsPlainFields fs p

  normal_items-IsPlainItems : (xs : Items) → IsPlainItems xs → IsPlainItems (normal_items xs)
  normal_items-IsPlainItems nil p = tt
  normal_items-IsPlainItems (cons v xs) p =
      (normal-IsDefined v p.0, normal-IsPlain v p.1, normal_items-IsPlainItems xs p.2)

  normal_fields-IsPlainFields : (fs : Fields) → IsPlainFields fs → IsPlainFields (normal_fields fs)
  normal_fields-IsPlainFields end p = tt
  normal_fields-IsPlainFields (field k v fs) p =
      insert_field-IsPlainFields k (normal v) (normal_fields fs) p.0
        (normal_fields-IsFresh k fs p.1) (normal-IsPlain v p.2) (normal_fields-IsPlainFields fs p.3)

mutual
  unfolding normal

  pub normal-Same : (v : Value) → IsPlain v → Same v (normal v)
  normal-Same null p = same null
  normal-Same undefined p = same undefined
  normal-Same (boolean b) p = same (boolean b)
  normal-Same (number t) p = same (number t)
  normal-Same (string s) p = same (string s)
  normal-Same (array xs) p = same_array (normal_items-SameItems xs p)
  normal-Same (object fs) p = same_object (normal_fields-SameFields fs p)

  normal_items-SameItems : (xs : Items) → IsPlainItems xs → SameItems xs (normal_items xs)
  normal_items-SameItems nil p = both_nil
  normal_items-SameItems (cons v xs) p =
      both_cons (normal-Same v p.1) (normal_items-SameItems xs p.2)

  normal_fields-SameFields : (fs : Fields) → IsPlainFields fs → SameFields fs (normal_fields fs)
  normal_fields-SameFields end p = both_end
  normal_fields-SameFields (field k v fs) p =
      chained (both_field (normal-Same v p.2) (normal_fields-SameFields fs p.3))
        (insert_field-SameFields k (normal v) (normal_fields fs) (normal_fields-IsFresh k fs p.1))
