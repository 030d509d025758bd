-- ===== src/Page/UseMobile.antt =====
-- Frontend/hooks/use-mobile.ts: whether the window is narrow. The media query calls its listener when its
-- answer changes; a width is in whole pixels.
use infrgate.Prelude.{
  ℕ, ◌-◌, ◌≡◌, refl, Bool, true, false, Option, none, some, List, [], ◌∷◌, leb, ltb, arith, ap, sym,
  ◌∙◌, Bool-cases, inl, inr, if◌then◌else◌,
}
use mathlib.Core.Path.{subst}

abbrev pub mobile_breakpoint : ℕ
mobile_breakpoint = 768

-- the hook, with the window's width and what the media query says of it
pub record UseMobile : Type 0 where
  pub is_mobile : Option Bool
  pub inner_width : ℕ

-- `(max-width: ${MOBILE_BREAKPOINT - 1}px)`
abbrev pub matches : ℕ → Bool
matches width = leb width (mobile_breakpoint - 1)

unfoldable pub on_change : UseMobile → UseMobile
on_change s = record s { is_mobile = some (ltb s.inner_width mobile_breakpoint) }

-- the effect of the first rendering
unfoldable pub mount : ℕ → UseMobile
unfolding on_change
mount width = on_change (record { is_mobile = none; inner_width = width })

abbrev same_answer : Bool → Bool → Bool
same_answer true b = b
same_answer false true = false
same_answer false false = true

-- The window gets another width: the listener is called only if the query's answer changes.
unfoldable pub resize : ℕ → UseMobile → UseMobile
unfolding on_change
resize width s =
    let s' = record s { inner_width = width } in
    if same_answer (matches s.inner_width) (matches width) then s' else on_change s'

unfoldable pub run : List ℕ → UseMobile → UseMobile
unfolding resize
run [] s = s
run (width ∷ widths) s = run widths (resize width s)

-- `!!isMobile`
unfoldable pub use_is_mobile : UseMobile → Bool
use_is_mobile s = elim s.is_mobile [ none ↦ false | some b ↦ b ]

abbrev pub last_width : ℕ → List ℕ → ℕ
last_width width [] = width
last_width width (next ∷ widths) = last_width next widths

inner_width-resize : (width : ℕ) (s : UseMobile) → (resize width s).inner_width ≡ width
unfolding resize on_change
inner_width-resize width s =
    elim (Bool-cases (same_answer (matches s.inner_width) (matches width))) [
      | inl same ↦ rw same refl
      | inr other ↦ rw other refl
    ]

-- The query's listener is called whenever the answer that it would give changes.
resize-in_step :
    (width : ℕ) (s : UseMobile)
    → s.is_mobile ≡ some (ltb s.inner_width mobile_breakpoint)
    → (resize width s).is_mobile ≡ some (ltb width mobile_breakpoint)
unfolding resize on_change
resize-in_step width s e = ground (arith, e)

run-in_step :
    (widths : List ℕ) (s : UseMobile)
    → s.is_mobile ≡ some (ltb s.inner_width mobile_breakpoint)
    → use_is_mobile (run widths s) ≡ ltb (last_width s.inner_width widths) mobile_breakpoint
unfolding run use_is_mobile
run-in_step [] s e = ground (arith, e)
run-in_step (width ∷ widths) s e =
    let stays = resize-in_step width s e in
    subst
      (λ w.
        use_is_mobile (run widths (resize width s)) ≡ ltb (last_width w widths) mobile_breakpoint)
      (inner_width-resize width s)
      (run-in_step widths (resize width s)
        (stays ∙ ap (λ w. some (ltb w mobile_breakpoint)) (sym (inner_width-resize width s))))

-- After any changes of its width, the hook says that the window is narrow exactly when its width then is
-- below the breakpoint, although it is told only when the answer of the media query changes.
pub use_is_mobile_lem :
    (width : ℕ) (widths : List ℕ)
    → use_is_mobile (run widths (mount width)) ≡ ltb (last_width width widths) mobile_breakpoint
unfolding mount
use_is_mobile_lem width widths = run-in_step widths (mount width) refl
