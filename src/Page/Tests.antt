-- ===== src/Page/Tests.antt =====
-- A ticker that is a list of functions, and the theorems of the page's parts on single runs.
use infrgate.Prelude.{
  ◌≡◌, ◌≢◌, refl, sym, ◌∙◌, ap, Bool, true, false, ◌||◌, List, [], ◌∷◌, inl, inr, arith, nat_eq,
  nat_eq_iff, Bool-cases, if◌then◌else◌,
}
use infrgate.Prelude.Text.{Text, codes}
use infrgate.Page.SideNav
use infrgate.Page.SideNav.{Entry, active_section_lem}
use infrgate.Page.UseMobile
use infrgate.Page.UseMobile.{use_is_mobile, use_is_mobile_lem}
use infrgate.Page.SmoothScroll
use infrgate.Page.SmoothScroll.{Callback, raf, arrow, Ticker, IsTicker, leaks}

abbrev same : Callback → Callback → Bool
same (raf i) (raf j) = nat_eq i j
same (arrow i) (arrow j) = nat_eq i j
same (raf i) (arrow j) = false
same (arrow i) (raf j) = false

abbrev has : Callback → List Callback → Bool
has c [] = false
has c (d ∷ ds) = same c d || has c ds

abbrev remove : Callback → List Callback → List Callback
remove c [] = []
remove c (d ∷ ds) = let rest = remove c ds in if same c d then rest else d ∷ rest

abbrev ticker : Ticker
ticker = record { Listeners = List Callback; has = has; add = λ c l. c ∷ l; remove = remove }

same_refl : (c : Callback) → same c c ≡ true
same_refl (raf i) = (nat_eq_iff i i).1 refl
same_refl (arrow i) = (nat_eq_iff i i).1 refl

same→eq : (c d : Callback) → same c d ≡ true → c ≡ d
same→eq (raf i) (raf j) h = ap raf ((nat_eq_iff i j).0 h)
same→eq (arrow i) (arrow j) h = ap arrow ((nat_eq_iff i j).0 h)
same→eq (raf i) (arrow j) h = cc
same→eq (arrow i) (raf j) h = cc

has-cons : (c d : Callback) (l : List Callback) → has d l ≡ true → has d (c ∷ l) ≡ true
has-cons c d l h = ground (arith, h)

has-remove_other :
    (c d : Callback) (l : List Callback) → c ≢ d → has d l ≡ true → has d (remove c l) ≡ true
has-remove_other c d [] ne h = h
has-remove_other c d (e ∷ es) ne h = elim (Bool-cases (same d e)) [
  | inl is_it ↦ elim (Bool-cases (same c e)) [
    | inl both ↦ absurd (ne (same→eq c e both ∙ sym (same→eq d e is_it)))
    | inr other ↦ ground (arith, other, is_it)
  ]
  | inr further ↦
      let rest = has-remove_other c d es ne (ground (arith, h, further)) in ground (arith, rest)
]

ticker-IsTicker : IsTicker ticker
ticker-IsTicker = record {
  has-add = λ c l. rw (same_refl c) refl;
  has-add_other = has-cons;
  has-remove_other = has-remove_other;
}

abbrev scrolling : SmoothScroll.Scrolling ticker
scrolling = record { listeners = []; next = 0; destroyed = [] }

-- The page is left and entered again.
leaks_example :
    has
      (arrow 0)
      (SmoothScroll.run ticker
        (SmoothScroll.mounted ∷ SmoothScroll.unmounted 1 ∷ [])
        (SmoothScroll.unmount ticker 0 (SmoothScroll.mount ticker scrolling))).listeners
    ≡ true
leaks_example =
    leaks ticker ticker-IsTicker scrolling (SmoothScroll.mounted ∷ SmoothScroll.unmounted 1 ∷ [])

abbrev seen : Text → Bool → Entry
seen target is_intersecting = record { target = target; is_intersecting = is_intersecting }

-- The signals come into view while the first section leaves it, and then nothing but leaves.
active_section_lem_example :
    (SideNav.run
      ((seen (codes "signals") true ∷ seen (codes "hero") false ∷ [])
        ∷ (seen (codes "signals") false ∷ [])
        ∷ [])
      (SideNav.mount (λ id. true))).active_section
    ≡ codes "signals"
active_section_lem_example =
    active_section_lem (λ id. true)
      ((seen (codes "signals") true ∷ seen (codes "hero") false ∷ [])
        ∷ (seen (codes "signals") false ∷ [])
        ∷ [])

-- Three widths, of which the second is told to no one.
use_is_mobile_lem_example :
    use_is_mobile (UseMobile.run (767 ∷ 400 ∷ 768 ∷ []) (UseMobile.mount 1200)) ≡ false
use_is_mobile_lem_example = use_is_mobile_lem 1200 (767 ∷ 400 ∷ 768 ∷ [])
