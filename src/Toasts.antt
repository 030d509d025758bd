-- ===== src/Toasts.antt =====
-- Frontend/hooks/use-toast.ts (Frontend/components/ui/use-toast.ts is the same file): the toasts of
-- the interface. The module's variables are one store: the counter of ids, `memoryState`, the map
-- `toastTimeouts`, the listeners, and the state that each listener holds. A handler takes the clock's
-- reading, in whole milliseconds, and the store. The timers are the event loop's: one whose time has
-- come may fire. What a toast shows is of any type, and a component is known by a number.
pub mod Events
pub mod Timers
pub mod Doomed
pub mod Lifetime
pub mod Kept
pub mod Views
pub mod Tests
use infrgate.Prelude.{
  ℕ, ◌+◌, ◌%◌, Bool, true, false, not, ◌||◌, Option, none, some, List, [], ◌∷◌, ◌++◌, map, filter,
  take, leb, if◌then◌else◌,
}
use infrgate.Prelude.Text.{Text, codes}
use infrgate.Prelude.Eq.{◌==◌, List-eq, Nat-eq}
use infrgate.Prelude.Dict.{Dict, lookup, insert, erase, spread}
use infrgate.Prelude.Decimal.{decimal}

abbrev pub toast_limit : ℕ
toast_limit = 1

abbrev pub toast_remove_delay : ℕ
toast_remove_delay = 1000000

-- Number.MAX_SAFE_INTEGER
abbrev pub max_safe_integer : ℕ
max_safe_integer = 9007199254740991

-- A prop of a toast. `onOpenChange` is the closure that `toast` makes over the id.
pub data Prop (N : Type 0) : Type 0 where
  node : N → Prop N
  flag : Bool → Prop N
  on_open_change : Text → Prop N

abbrev pub Props : Type 0 → Type 0
Props N = Dict Text (Prop N)

pub record ToasterToast (N : Type 0) : Type 0 where
  pub id : Text
  pub props : Props N

-- Partial<ToasterToast>
pub record PartialToast (N : Type 0) : Type 0 where
  pub id : Option Text
  pub props : Props N

pub data Action (N : Type 0) : Type 0 where
  add_toast : ToasterToast N → Action N
  update_toast : PartialToast N → Action N
  dismiss_toast : Option Text → Action N
  remove_toast : Option Text → Action N

pub record Store (N : Type 0) : Type 0 where
  pub counter : ℕ
  pub toasts : List (ToasterToast N)
  -- the time at which each timer is due
  pub timeouts : Dict Text ℕ
  pub listeners : List ℕ
  pub views : Dict ℕ (List (ToasterToast N))

unfoldable pub empty_store : {N : Type 0} → Store N
empty_store = record { counter = 0; toasts = []; timeouts = []; listeners = []; views = [] }

abbrev next_count : ℕ → ℕ
next_count n = (n + 1) % max_safe_integer

abbrev is_set : Option ℕ → Bool
is_set none = false
is_set (some due) = true

-- an id that is given, and equal
abbrev pub names : Option Text → Text → Bool
names none id = false
names (some i) id = i == id

-- `toastId === undefined`
abbrev is_undefined : Option Text → Bool
is_undefined none = true
is_undefined (some i) = false

unfoldable pub add_to_remove_queue : ℕ → Text → Dict Text ℕ → Dict Text ℕ
add_to_remove_queue now id timeouts =
    if is_set (lookup id timeouts) then timeouts else insert id (now + toast_remove_delay) timeouts

-- `listeners.splice(listeners.indexOf(setState), 1)`
remove_first : ℕ → List ℕ → List ℕ
remove_first c [] = []
remove_first c (d ∷ cs) = if d == c then cs else d ∷ remove_first c cs

module _ {N : Type 0} where
  -- `state.toasts.forEach(…)`
  queue_all : ℕ → List (ToasterToast N) → Dict Text ℕ → Dict Text ℕ
  unfolding add_to_remove_queue
  queue_all now [] timeouts = timeouts
  queue_all now (t ∷ ts) timeouts = queue_all now ts (add_to_remove_queue now t.id timeouts)

  -- the side effect of a dismissal: an empty id counts as none
  unfoldable pub queue_removals :
      ℕ → Option Text → List (ToasterToast N) → Dict Text ℕ → Dict Text ℕ
  unfolding queue_all
  queue_removals now none toasts timeouts = queue_all now toasts timeouts
  queue_removals now (some []) toasts timeouts = queue_all now toasts timeouts
  queue_removals now (some (c ∷ id)) toasts timeouts = add_to_remove_queue now (c ∷ id) timeouts

  -- { ...t, ...action.toast }
  abbrev patch : PartialToast N → ToasterToast N → ToasterToast N
  patch p t = if names p.id t.id then record t { props = spread t.props p.props } else t

  abbrev close : Option Text → ToasterToast N → ToasterToast N
  close id t =
      if names id t.id || is_undefined id
      then record t { props = insert (codes "open") (flag false) t.props }
      else t

  -- `reducer`, at the action: the timers and the toasts that it leaves
  unfoldable pub reducer :
      ℕ → Action N → Dict Text ℕ → List (ToasterToast N) → Dict Text ℕ × List (ToasterToast N)
  unfolding queue_removals
  reducer now (add_toast t) timeouts toasts = (timeouts, take toast_limit (t ∷ toasts))
  reducer now (update_toast p) timeouts toasts = (timeouts, map (patch p) toasts)
  reducer now (dismiss_toast id) timeouts toasts =
      (queue_removals now id toasts timeouts, map (close id) toasts)
  reducer now (remove_toast none) timeouts toasts = (timeouts, [])
  reducer now (remove_toast (some id)) timeouts toasts =
      (timeouts, filter (λ t. not (t.id == id)) toasts)

  -- `listeners.forEach`: each listener's state is set
  unfoldable pub notify :
      List ℕ
      → List (ToasterToast N)
      → Dict ℕ (List (ToasterToast N))
      → Dict ℕ (List (ToasterToast N))
  notify [] toasts views = views
  notify (c ∷ cs) toasts views = notify cs toasts (insert c toasts views)

  unfoldable pub dispatch : ℕ → Action N → Store N → Store N
  unfolding reducer
  dispatch now action s =
      let (timeouts, toasts) = reducer now action s.timeouts s.toasts in
      record s { timeouts = timeouts; toasts = toasts; views = notify s.listeners toasts s.views }

  -- `toast`: the id that it returns, and the store
  unfoldable pub toast : ℕ → Props N → Store N → Text × Store N
  toast now props s =
      let count = next_count s.counter in
      let id = decimal count in
      let opened =
        insert (codes "onOpenChange") (on_open_change id)
          (insert (codes "open") (flag true) props) in
      (
        id,
        dispatch now (add_toast (record { id = id; props = opened }))
            (record s { counter = count }),
      )

  -- `update` and `dismiss` of what `toast` returns
  unfoldable pub update : ℕ → Text → Props N → Store N → Store N
  update now id props s = dispatch now (update_toast (record { id = some id; props = props })) s

  unfoldable pub dismiss : ℕ → Option Text → Store N → Store N
  dismiss now id s = dispatch now (dismiss_toast id) s

  -- the `onOpenChange` of the toast with the id
  unfoldable pub open_changed : ℕ → Text → Bool → Store N → Store N
  unfolding dismiss
  open_changed now id open_now s = if open_now then s else dismiss now (some id) s

  -- what the timer of an id does
  unfoldable pub fire : ℕ → Text → Store N → Store N
  fire now id s =
      dispatch now (remove_toast (some id)) (record s { timeouts = erase id s.timeouts })

  -- The event loop runs no timer before it is due.
  unfoldable pub fire_due : ℕ → Text → Store N → Store N
  unfolding fire
  fire_due now id s = elim (lookup id s.timeouts) [
    | none ↦ s
    | some due ↦ if leb due now then fire now id s else s
  ]

  -- `useToast`: the first rendering of a component, its effect, and the effect's cleanup
  unfoldable pub render : ℕ → Store N → Store N
  render c s = record s { views = insert c s.toasts s.views }

  unfoldable pub subscribe : ℕ → Store N → Store N
  subscribe c s = record s { listeners = s.listeners ++ c ∷ [] }

  unfoldable pub unsubscribe : ℕ → Store N → Store N
  unfolding remove_first
  unsubscribe c s = record s { listeners = remove_first c s.listeners }
