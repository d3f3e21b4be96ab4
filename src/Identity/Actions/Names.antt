-- ===== src/Identity/Actions/Names.antt =====
-- identity/core/action.cpp: the names of the actions and what reads them back.
use pdr.Base.{
  ◌≡◌, refl, ◌↔◌, subst, Bool, true, false, not, ◌&&◌, List, [], ◌∷◌, some, String, find_named,
  find_named-some, arith,
}
use pdr.Identity.Actions.{Action, action_name, every_action, parse_action, same_action}

parse_back :
    (a : Action) → same_action a Action.boundary ≡ false → parse_action (action_name a) ≡ some a
unfolding parse_action action_name find_named
parse_back Action.boundary h = absurd (ground arith)
parse_back Action.book_lesson h = refl
parse_back _ h = refl

abbrev none_is_boundary : List Action → Bool
none_is_boundary [] = true
none_is_boundary (x ∷ xs) = not (same_action x Action.boundary) && none_is_boundary xs

not_boundary :
    (text : String) (xs : List Action) {a : Action}
    → find_named action_name xs text ≡ some a
    → none_is_boundary xs ≡ true
    → same_action a Action.boundary ≡ false
unfolding find_named
not_boundary text [] h listed = absurd (grind arith)
not_boundary text (x ∷ xs) {a} h listed = ground (arith, not_boundary text xs {a = a}, listed)

-- A text is read as an action exactly when it is the action's name, and never as the border of the
-- list.
pub parse_action-action_name :
    (text : String) (a : Action)
    → (parse_action text ≡ some a)
      ↔ ((action_name a ≡ text) × (same_action a Action.boundary ≡ false))
unfolding parse_action
parse_action-action_name text a = (
  λ h. (find_named-some action_name every_action text h, not_boundary text every_action h refl),
  λ h. subst (λ t. parse_action t ≡ some a) h.0 (parse_back a h.1),
)
