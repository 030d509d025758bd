-- ===== src/Page/SideNav.antt =====
-- Frontend/components/side-nav.tsx: the section in view. The observer's callbacks come with their entries,
-- of the elements that were found when the component was mounted. Scrolling and markup are left out.
use infrgate.Prelude.{
  ◌≡◌, refl, sym, ◌∙◌, Bool, true, Option, none, some, List, [], ◌∷◌, ◌++◌, filter, last,
  Bool-cases, inl, inr, if◌then◌else◌,
}
use infrgate.Prelude.Text.{Text, codes}

pub record NavItem : Type 0 where
  pub id : Text
  pub label : Text

abbrev item : Text → Text → NavItem
item id label = record { id = id; label = label }

abbrev pub nav_items : List NavItem
nav_items =
    item (codes "hero") (codes "Index")
    ∷ item (codes "signals") (codes "Signals")
    ∷ item (codes "work") (codes "Experiments")
    ∷ item (codes "principles") (codes "Principles")
    ∷ item (codes "colophon") (codes "Colophon")
    ∷ []

-- an `IntersectionObserverEntry`, by its target's id
pub record Entry : Type 0 where
  pub target : Text
  pub is_intersecting : Bool

-- the component: `activeSection`, and the ids that its observer watches
pub record SideNav : Type 0 where
  pub active_section : Text
  pub observed : List Text

-- `document.getElementById` finds an element of the id or none
unfoldable pub observed_of : (Text → Bool) → List NavItem → List Text
observed_of exists [] = []
observed_of exists (i ∷ is) =
    let others = observed_of exists is in if exists i.id then i.id ∷ others else others

unfoldable pub mount : (Text → Bool) → SideNav
unfolding observed_of
mount exists = record { active_section = codes "hero"; observed = observed_of exists nav_items }

-- the observer's callback
unfoldable pub on_intersect : List Entry → SideNav → SideNav
on_intersect [] s = s
on_intersect (e ∷ es) s =
    on_intersect es (if e.is_intersecting then record s { active_section = e.target } else s)

unfoldable pub run : List (List Entry) → SideNav → SideNav
unfolding on_intersect
run [] s = s
run (es ∷ callbacks) s = run callbacks (on_intersect es s)

-- the target of the last entry that came into view, or what was active before
abbrev pub or_before : Option Entry → Text → Text
or_before none before = before
or_before (some e) before = e.target

abbrev pub all_entries : List (List Entry) → List Entry
all_entries [] = []
all_entries (es ∷ callbacks) = es ++ all_entries callbacks

on_intersect-append :
    (es fs : List Entry) (s : SideNav)
    → on_intersect (es ++ fs) s ≡ on_intersect fs (on_intersect es s)
unfolding on_intersect
on_intersect-append [] fs s = refl
on_intersect-append (e ∷ es) fs s =
    on_intersect-append es fs
      (if e.is_intersecting then record s { active_section = e.target } else s)

run-all_entries :
    (callbacks : List (List Entry)) (s : SideNav)
    → run callbacks s ≡ on_intersect (all_entries callbacks) s
unfolding run
run-all_entries [] s = unfold on_intersect in refl
run-all_entries (es ∷ callbacks) s =
    run-all_entries callbacks (on_intersect es s)
    ∙ sym (on_intersect-append es (all_entries callbacks) s)

or_before-last :
    (e : Entry) (es : List Entry) (before : Text)
    → or_before (last (e ∷ es)) before ≡ or_before (last es) e.target
or_before-last e [] before = refl
or_before-last e (f ∷ []) before = refl
or_before-last e (f ∷ g ∷ es) before =
    or_before-last f (g ∷ es) before ∙ sym (or_before-last f (g ∷ es) e.target)

on_intersect-last :
    (es : List Entry) (s : SideNav)
    → (on_intersect es s).active_section
      ≡ or_before (last (filter (λ e. e.is_intersecting) es)) s.active_section
unfolding on_intersect
on_intersect-last [] s = refl
on_intersect-last (e ∷ es) s = elim (Bool-cases e.is_intersecting) [
  | inl seen ↦ rw seen (
      on_intersect-last es (record s { active_section = e.target })
      ∙ sym (
          or_before-last (record e { is_intersecting = true }) (filter (λ d. d.is_intersecting) es)
            s.active_section))
  | inr hidden ↦ rw hidden (on_intersect-last es s)
]

-- The section that the navigation shows is the one that came into view last, over all callbacks of the
-- observer, and the first one of the page until then.
pub active_section_lem :
    (exists : Text → Bool) (callbacks : List (List Entry))
    → (run callbacks (mount exists)).active_section
      ≡ or_before (last (filter (λ e. e.is_intersecting) (all_entries callbacks))) (codes "hero")
unfolding mount
active_section_lem exists callbacks =
    rw (run-all_entries callbacks (mount exists))
      (on_intersect-last (all_entries callbacks) (mount exists))
