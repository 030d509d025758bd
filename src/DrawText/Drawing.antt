-- ===== src/DrawText/Drawing.antt =====
-- What is left of the timers of a letter until it is drawn.
use infrgate.Prelude.{
  ℕ, zero, suc, ◌+◌, ◌<◌, ◌≡◌, refl, ap, ◌∙◌, ◌⊎◌, inl, inr, Bool, true, false, ◌||◌, Option, none,
  some, List, [], ◌∷◌, ◌++◌, length, leb, nat_eq, nat_eq_iff, arith, Bool-cases, Option-cases,
  if◌then◌else◌,
}
use infrgate.Prelude.Text.{Text}
use infrgate.DrawText.{
  Letter, DelayedCall, FlipInterval, DrawText, max_flips_of, any_flip_char, char_at, blanks,
  calls_from, modify, pull, run_ticker_animation, handle_mouse_enter, start_flipping, flip,
  run_call, run_interval, Event, call_runs, interval_runs, step, run,
}

abbrev pub letter_at : ℕ → List Letter → Option Letter
letter_at i [] = none
letter_at zero (l ∷ ls) = some l
letter_at (suc i) (l ∷ ls) = letter_at i ls

abbrev apply : (Letter → Letter) → Option Letter → Option Letter
apply f none = none
apply f (some l) = some (f l)

letter_at-modify :
    (i j : ℕ) (f : Letter → Letter) (ls : List Letter)
    → letter_at j (modify i f ls)
      ≡ (if nat_eq i j then apply f (letter_at j ls) else letter_at j ls)
unfolding modify
letter_at-modify i j f [] = ground arith
letter_at-modify zero zero f (l ∷ ls) = refl
letter_at-modify zero (suc j) f (l ∷ ls) = ground arith
letter_at-modify (suc i) zero f (l ∷ ls) = ground arith
letter_at-modify (suc i) (suc j) f (l ∷ ls) = ground (arith, letter_at-modify i j f ls)

abbrev pub any {ℓ} : {A : Type ℓ} → (A → Bool) → List A → Bool
any p [] = false
any p (x ∷ xs) = p x || any p xs

any-append {ℓ} :
    {A : Type ℓ} (p : A → Bool) (xs ys : List A) → any p (xs ++ ys) ≡ (any p xs || any p ys)
any-append p [] ys = refl
any-append p (x ∷ xs) ys = ground (arith, any-append p xs ys)

any-pull {ℓ} :
    {A : Type ℓ} (p : A → Bool) (k : ℕ) (xs : List A) (a : A) (rest : List A)
    → pull k xs ≡ some (a, rest)
    → any p xs ≡ (p a || any p rest)
unfolding pull
any-pull p k [] a rest e = cc
any-pull p zero (x ∷ xs) a rest e = ground arith
any-pull p (suc k) (x ∷ xs) a rest e = elim (Option-cases (pull k xs)) [
  | inl gone ↦ cc (rw (gone, pull) at e)
  | inr ((b, others), found) ↦ ground (arith, any-pull p k xs b others found, e, found)
]

-- a timer of the letter is left
abbrev pub waits : ℕ → DrawText → Bool
waits i s = any (λ c. nat_eq c.index i) s.calls || any (λ t. nat_eq t.index i) s.intervals

abbrev pub is_there : Option Letter → Bool
is_there none = false
is_there (some l) = true

is_there-modify :
    (i j : ℕ) (f : Letter → Letter) (ls : List Letter)
    → is_there (letter_at j (modify i f ls)) ≡ is_there (letter_at j ls)
unfolding modify
is_there-modify i j f [] = refl
is_there-modify zero zero f (l ∷ ls) = refl
is_there-modify zero (suc j) f (l ∷ ls) = refl
is_there-modify (suc i) zero f (l ∷ ls) = refl
is_there-modify (suc i) (suc j) f (l ∷ ls) = is_there-modify i j f ls

letter_at-modify_other :
    (i j : ℕ) (f : Letter → Letter) (ls : List Letter)
    → nat_eq i j ≡ false
    → letter_at j (modify i f ls) ≡ letter_at j ls
letter_at-modify_other i j f ls other = rw (letter_at-modify i j f ls, other) refl

letter_at-modify_constant :
    (i j : ℕ) (letter : Letter) (ls : List Letter)
    → nat_eq i j ≡ true
    → is_there (letter_at j ls) ≡ true
    → letter_at j (modify i (λ _. letter) ls) ≡ some letter
letter_at-modify_constant i j letter ls same there = elim (Option-cases (letter_at j ls)) [
  | inl gone ↦ ground (arith, gone, there)
  | inr (l, found) ↦ rw (letter_at-modify i j (λ _. letter) ls, same, found) refl
]

letter_at-blanks :
    (i : ℕ) (text : Text) → i < length text → is_there (letter_at i (blanks text)) ≡ true
letter_at-blanks i [] h = ground arith
letter_at-blanks zero (c ∷ s) h = refl
letter_at-blanks (suc i) (c ∷ s) h = letter_at-blanks i s (omega arith)

any-calls_from :
    (in_context : Bool) (i j : ℕ) (text : Text)
    → i < length text
    → any (λ (c : DelayedCall). nat_eq c.index (j + i)) (calls_from in_context j text) ≡ true
any-calls_from in_context i j [] h = ground arith
any-calls_from in_context zero j (c ∷ s) h = ground arith
any-calls_from in_context (suc i) j (c ∷ s) h =
    let rest = any-calls_from in_context i (suc j) s (omega arith) in
    let same : suc j + i ≡ j + suc i = omega arith in ground (arith, rest, same)

module _ (text : Text) where
  abbrev pub drawn : ℕ → Letter
  drawn i = record { display = char_at text i; active = true; flipping = false }

  -- A letter is drawn, or a timer of its is left.
  pub record IsUnderWay (i : ℕ) (s : DrawText) : Type 0 where
    pub there : is_there (letter_at i s.letters) ≡ true
    pub ends : (letter_at i s.letters ≡ some (drawn i)) ⊎ (waits i s ≡ true)

  start_flipping-IsUnderWay :
      (i k random : ℕ) (call : DelayedCall) (rest : List DelayedCall) (s : DrawText)
      → pull k s.calls ≡ some (call, rest)
      → IsUnderWay i s
      → IsUnderWay i (start_flipping text random call (record s { calls = rest }))
  unfolding start_flipping
  start_flipping-IsUnderWay i k random call rest s found u =
      let f : Letter → Letter = λ l. record l { flipping = true } in
      let interval : FlipInterval = record {
        index = call.index;
        flip_count = 0;
        max_flips = max_flips_of random;
      } in
      let calls = any-pull (λ c. nat_eq c.index i) k s.calls call rest found in
      let intervals = any-append (λ t. nat_eq t.index i) s.intervals (interval ∷ []) in
      record {
        there = is_there-modify call.index i f s.letters ∙ u.there;
        ends = elim (Bool-cases (nat_eq call.index i)) [
          | inl same ↦ inr (ground (arith, intervals, same))
          | inr other ↦ elim u.ends [
            | inl done ↦ inl (letter_at-modify_other call.index i f s.letters other ∙ done)
            | inr waiting ↦ inr (ground (arith, calls, intervals, other, waiting))
          ]
        ];
      }

  flip-IsUnderWay :
      (i k random : ℕ) (interval : FlipInterval) (rest : List FlipInterval) (s : DrawText)
      → pull k s.intervals ≡ some (interval, rest)
      → IsUnderWay i s
      → IsUnderWay i (flip text random interval (record s { intervals = rest }))
  unfolding flip
  flip-IsUnderWay i k random interval rest s found u =
      let j = interval.index in
      let f : Letter → Letter = λ l. record l { display = any_flip_char random } in
      let again : FlipInterval = record interval { flip_count = suc interval.flip_count } in
      let pulled = any-pull (λ t. nat_eq t.index i) k s.intervals interval rest found in
      let intervals = any-append (λ t. nat_eq t.index i) rest (again ∷ []) in
      elim (Bool-cases (leb interval.max_flips (suc interval.flip_count))) [
        | inl over ↦ rw over (record {
          there = is_there-modify j i (λ _. drawn j) s.letters ∙ u.there;
          ends = elim (Bool-cases (nat_eq j i)) [
            | inl same ↦ inl (
                letter_at-modify_constant j i (drawn j) s.letters same u.there
                ∙ ap (λ n. some (drawn n)) ((nat_eq_iff j i).0 same))
            | inr other ↦ elim u.ends [
              | inl done ↦ inl (letter_at-modify_other j i (λ _. drawn j) s.letters other ∙ done)
              | inr waiting ↦ inr (ground (arith, pulled, other, waiting))
            ]
          ];
        })
        | inr more ↦ rw more (record {
          there = is_there-modify j i f s.letters ∙ u.there;
          ends = elim (Bool-cases (nat_eq j i)) [
            | inl same ↦ inr (ground (arith, intervals, same))
            | inr other ↦ elim u.ends [
              | inl done ↦ inl (letter_at-modify_other j i f s.letters other ∙ done)
              | inr waiting ↦ inr (ground (arith, pulled, intervals, other, waiting))
            ]
          ];
        })
      ]

  run_call-IsUnderWay :
      (i k random : ℕ) (s : DrawText) → IsUnderWay i s → IsUnderWay i (run_call text k random s)
  unfolding run_call
  run_call-IsUnderWay i k random s u = elim (Option-cases (pull k s.calls)) [
    | inl gone ↦ rw (gone, run_call) u
    | inr ((call, rest), found) ↦
        rw (found, run_call) (start_flipping-IsUnderWay i k random call rest s found u)
  ]

  run_interval-IsUnderWay :
      (i k random : ℕ) (s : DrawText) → IsUnderWay i s → IsUnderWay i (run_interval text k random s)
  unfolding run_interval
  run_interval-IsUnderWay i k random s u = elim (Option-cases (pull k s.intervals)) [
    | inl gone ↦ rw (gone, run_interval) u
    | inr ((interval, rest), found) ↦
        rw (found, run_interval) (flip-IsUnderWay i k random interval rest s found u)
  ]

  pub handle_mouse_enter-IsUnderWay :
      (i : ℕ) (s : DrawText)
      → i < length text
      → s.has_animated ≡ true
      → IsUnderWay i (handle_mouse_enter text s)
  unfolding handle_mouse_enter run_ticker_animation
  handle_mouse_enter-IsUnderWay i s h ready =
      let calls = any-append (λ c. nat_eq c.index i) s.calls (calls_from false 0 text) in
      let mine = any-calls_from false i 0 text h in
      rw (ready, handle_mouse_enter)
        (record { there = letter_at-blanks i text h; ends = inr (ground (arith, calls, mine)) })

  pub run-IsUnderWay :
      (i : ℕ) (es : List Event) (s : DrawText) → IsUnderWay i s → IsUnderWay i (run text es s)
  unfolding run step
  run-IsUnderWay i [] s u = u
  run-IsUnderWay i (call_runs k random ∷ es) s u =
      run-IsUnderWay i es _ (run_call-IsUnderWay i k random s u)
  run-IsUnderWay i (interval_runs k random ∷ es) s u =
      run-IsUnderWay i es _ (run_interval-IsUnderWay i k random s u)
