-- ===== src/Page/WorkCard.antt =====
-- Frontend/components/work-section.tsx, `WorkCard`: whether a card is shown as active. gsap's trigger calls
-- `onEnter` when the card comes into view. Markup is left out.
use infrgate.Prelude.{◌≡◌, Bool, true, false, ◌&&◌, ◌||◌, List, [], ◌∷◌, arith, if◌then◌else◌}

pub record WorkCard : Type 0 where
  pub is_hovered : Bool
  pub is_scroll_active : Bool
  pub has_trigger : Bool

-- the effect creates the trigger for a card that is to stay active
unfoldable pub mount : Bool → WorkCard
mount persist_hover = record {
  is_hovered = false;
  is_scroll_active = false;
  has_trigger = persist_hover;
}

pub data Event : Type 0 where
  mouse_enter mouse_leave scrolled_in : Event

unfoldable pub step : Event → WorkCard → WorkCard
step mouse_enter s = record s { is_hovered = true }
step mouse_leave s = record s { is_hovered = false }
step scrolled_in s = if s.has_trigger then record s { is_scroll_active = true } else s

unfoldable pub run : List Event → WorkCard → WorkCard
unfolding step
run [] s = s
run (e ∷ es) s = run es (step e s)

unfoldable pub is_active : WorkCard → Bool
is_active s = s.is_hovered || s.is_scroll_active

-- whether the mouse is over the card after some events, and whether the card came into view
abbrev pub hovered_after : Bool → List Event → Bool
hovered_after over [] = over
hovered_after over (mouse_enter ∷ es) = hovered_after true es
hovered_after over (mouse_leave ∷ es) = hovered_after false es
hovered_after over (scrolled_in ∷ es) = hovered_after over es

abbrev pub came_into_view : List Event → Bool
came_into_view [] = false
came_into_view (mouse_enter ∷ es) = came_into_view es
came_into_view (mouse_leave ∷ es) = came_into_view es
came_into_view (scrolled_in ∷ es) = true

run-is_active :
    (es : List Event) (s : WorkCard)
    → is_active (run es s) ≡ (
        hovered_after s.is_hovered es
        || (s.is_scroll_active || (s.has_trigger && came_into_view es)))
unfolding run step is_active
run-is_active [] s = ground arith
run-is_active (mouse_enter ∷ es) s = run-is_active es (record s { is_hovered = true })
run-is_active (mouse_leave ∷ es) s = run-is_active es (record s { is_hovered = false })
run-is_active (scrolled_in ∷ es) s =
    ground (arith, run-is_active es s, run-is_active es (record s { is_scroll_active = true }))

-- A card is active while the mouse is over it; the first card also from the time it comes into view, for
-- good.
pub is_active_lem :
    (persist_hover : Bool) (es : List Event)
    → is_active (run es (mount persist_hover))
      ≡ (hovered_after false es || (persist_hover && came_into_view es))
unfolding mount
is_active_lem persist_hover es = run-is_active es (mount persist_hover)
