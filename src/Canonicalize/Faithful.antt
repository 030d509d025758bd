-- ===== src/Canonicalize/Faithful.antt =====
-- The canonical text of a plain value is the text of its normal form.
use infrgate.Prelude.{
  ◌≡◌, refl, sym, ap, ◌∙◌, inl, inr, Option, some, List, [], ◌∷◌, ◌++◌, map, Bool-cases,
}
use mathlib.Core.List.{append_assoc}
use mathlib.Core.Path.{ap₂}
use infrgate.Prelude.Text.{Text, codes}
use infrgate.Prelude.Eq.{List-eq, ==_refl, ==_ne}
use infrgate.Prelude.Dict.{Dict, lookup}
use infrgate.Prelude.Sort
use infrgate.Canonicalize.{
  Value, null, undefined, boolean, number, string, array, object, Items, nil, cons, Fields, end,
  field, text_leb, keys, join, in_template, pair, canonicalize, elements, members,
}
use infrgate.Canonicalize.Plain.{
  IsFresh, IsDefined, IsPlain, IsPlainItems, IsPlainFields, key_text, text_of, text_more,
  fields_more,
}
use infrgate.Canonicalize.Normal.{
  insert_field, normal, normal_items, normal_fields, normal_fields-IsFresh,
}

abbrev keys_of : Fields → List Text
keys_of end = []
keys_of (field k v fs) = k ∷ keys_of fs

keys-members : (fs : Fields) → keys (members fs) ≡ keys_of fs
unfolding canonicalize
keys-members end = refl
keys-members (field k v fs) = ap (λ ks. k ∷ ks) (keys-members fs)

keys_of-insert_field :
    (k : Text) (v : Value) (fs : Fields)
    → keys_of (insert_field k v fs) ≡ Sort.insert text_leb k (keys_of fs)
unfolding insert_field Sort.insert
keys_of-insert_field k v end = refl
keys_of-insert_field k v (field j w fs) = elim (Bool-cases (text_leb k j)) [
  | inl e ↦ rw e refl
  | inr e ↦ rw e (ap (λ ks. j ∷ ks) (keys_of-insert_field k v fs))
]

keys_of-normal_fields : (fs : Fields) → keys_of (normal_fields fs) ≡ Sort.sort text_leb (keys_of fs)
unfolding normal Sort.sort
keys_of-normal_fields end = refl
keys_of-normal_fields (field k v fs) =
    keys_of-insert_field k (normal v) (normal_fields fs)
    ∙ ap (Sort.insert text_leb k) (keys_of-normal_fields fs)

-- The rendered fields hold the text of each of the given fields.
abbrev Shows : Dict Text (Option Text) → Fields → Type 0
Shows m end = Unit
Shows m (field k v fs) = (in_template (lookup k m) ≡ text_of v) × Shows m fs

Shows-cons :
    (k : Text) (t : Option Text) (m : Dict Text (Option Text)) (fs : Fields)
    → IsFresh k fs
    → Shows m fs
    → Shows ((k, t) ∷ m) fs
unfolding lookup
Shows-cons k t m end new h = tt
Shows-cons k t m (field j w fs) new h = (rw (==_ne k j new.0) h.0, Shows-cons k t m fs new.1 h.1)

Shows-insert_field :
    (k : Text) (v : Value) (m : Dict Text (Option Text)) (fs : Fields)
    → in_template (lookup k m) ≡ text_of v
    → Shows m fs
    → Shows m (insert_field k v fs)
unfolding insert_field
Shows-insert_field k v m end e h = (e, tt)
Shows-insert_field k v m (field j w fs) e h = elim (Bool-cases (text_leb k j)) [
  | inl le ↦ rw le (e, h)
  | inr le ↦ rw le (h.0, Shows-insert_field k v m fs e h.1)
]

-- the text of the fields behind the first one, and of all of them
abbrev shown : Dict Text (Option Text) → List Text → List (Option Text)
shown m ks = map (λ key. some (pair key (lookup key m))) ks

pair-shown :
    (k t : Text) (m : Dict Text (Option Text))
    → in_template (lookup k m) ≡ t
    → pair k (lookup k m) ≡ key_text k ++ t
unfolding pair key_text
pair-shown k t m e = rw (e, append_assoc) refl

join-shown :
    (k : Text) (v : Value) (fs : Fields) (m : Dict Text (Option Text))
    → Shows m (field k v fs)
    → join (shown m (k ∷ keys_of fs)) ++ codes "}" ≡ key_text k ++ (text_of v ++ fields_more fs)
unfolding join text_of
join-shown k v end m h =
    rw (pair-shown k (text_of v) m h.0) (append_assoc (key_text k) (text_of v) (codes "}"))
join-shown k v (field j w fs) m h =
    let later = join-shown j w fs m h.1 in
    rw (pair-shown k (text_of v) m h.0) (simp (append_assoc, later) refl)

object-shown :
    (fs : Fields) (m : Dict Text (Option Text))
    → Shows m fs
    → codes "{" ++ (join (shown m (keys_of fs)) ++ codes "}") ≡ text_of (object fs)
unfolding join text_of
object-shown end m h = refl
object-shown (field k v fs) m h = ap (λ t. b'{' ∷ t) (join-shown k v fs m h)

abbrev texts_of : Items → List (Option Text)
texts_of nil = []
texts_of (cons v xs) = some (text_of v) ∷ texts_of xs

join-texts_of :
    (v : Value) (xs : Items) → join (texts_of (cons v xs)) ++ codes "]" ≡ text_of v ++ text_more xs
unfolding join text_of
join-texts_of v nil = refl
join-texts_of v (cons w xs) = let later = join-texts_of w xs in simp (append_assoc, later) refl

array-texts_of : (xs : Items) → codes "[" ++ (join (texts_of xs) ++ codes "]") ≡ text_of (array xs)
unfolding join text_of
array-texts_of nil = refl
array-texts_of (cons v xs) = ap (λ t. b'[' ∷ t) (join-texts_of v xs)

members-cons :
    (k : Text) (t : Option Text) (v : Value) (m : Dict Text (Option Text)) (fs : Fields)
    → in_template (some t) ≡ text_of v
    → IsFresh k fs
    → Shows m fs
    → Shows ((k, t) ∷ m) (insert_field k v fs)
unfolding lookup
members-cons k t v m fs e new h =
    Shows-insert_field k v ((k, t) ∷ m) fs (rw (==_refl k) e) (Shows-cons k t m fs new h)

-- Any value that is defined has a text.
canonicalize-IsDefined :
    (v : Value) → IsDefined v → canonicalize v ≡ some (in_template (some (canonicalize v)))
unfolding canonicalize
canonicalize-IsDefined null d = refl
canonicalize-IsDefined undefined d = absurd d
canonicalize-IsDefined (boolean b) d = refl
canonicalize-IsDefined (number t) d = refl
canonicalize-IsDefined (string s) d = refl
canonicalize-IsDefined (array xs) d = refl
canonicalize-IsDefined (object fs) d = refl

mutual
  unfolding canonicalize normal text_of

  canonicalize-text_of :
      (v : Value) → IsPlain v → in_template (some (canonicalize v)) ≡ text_of (normal v)
  canonicalize-text_of null p = refl
  canonicalize-text_of undefined p = refl
  canonicalize-text_of (boolean b) p = refl
  canonicalize-text_of (number t) p = refl
  canonicalize-text_of (string s) p = refl
  canonicalize-text_of (array xs) p =
      ap (λ ts. codes "[" ++ (join ts ++ codes "]")) (elements-normal_items xs p)
      ∙ array-texts_of (normal_items xs)
  canonicalize-text_of (object fs) p =
      let order = ap (Sort.sort text_leb) (keys-members fs) ∙ sym (keys_of-normal_fields fs) in
      ap (λ ks. codes "{" ++ (join (shown (members fs) ks) ++ codes "}")) order
      ∙ object-shown (normal_fields fs) (members fs) (members-Shows fs p)

  elements-normal_items : (xs : Items) → IsPlainItems xs → elements xs ≡ texts_of (normal_items xs)
  elements-normal_items nil p = refl
  elements-normal_items (cons v xs) p =
      ap₂ (λ t ts. t ∷ ts) (canonicalize-IsDefined v p.0 ∙ ap some (canonicalize-text_of v p.1))
        (elements-normal_items xs p.2)

  members-Shows : (fs : Fields) → IsPlainFields fs → Shows (members fs) (normal_fields fs)
  members-Shows end p = tt
  members-Shows (field k v fs) p =
      members-cons k (canonicalize v) (normal v) (members fs) (normal_fields fs)
        (canonicalize-text_of v p.2) (normal_fields-IsFresh k fs p.1) (members-Shows fs p.3)

-- The canonical text of a plain value that is defined is the text of its normal form.
pub canonicalize-normal :
    (v : Value) → IsDefined v → IsPlain v → canonicalize v ≡ some (text_of (normal v))
canonicalize-normal v d p = canonicalize-IsDefined v d ∙ ap some (canonicalize-text_of v p)
