-- ===== src/Receipts.antt =====
-- server/internal/receipts/statemachine.go: the states of an emergency receipt and their
-- transitions. A state is stored as a text; `unknown t` is a text that is none of the five tokens.
pub mod Lifecycle
pub mod Rows
pub mod Scheduler
pub mod Cancel
use pushfree.Common.{
  String, Bool, true, false, not, Option, none, some, List, [], ◌∷◌, ◌&&◌, ◌||◌, any, if◌then◌else◌,
  str_eq,
}

pub data State : Type 0 where
  pending delivered acknowledged expired canceled : State
  unknown : (text : String) → State

-- `a == b` on the tokens
unfoldable pub same : State → State → Bool
same pending pending = true
same delivered delivered = true
same acknowledged acknowledged = true
same expired expired = true
same canceled canceled = true
same (unknown s) (unknown t) = str_eq s t
same _ _ = false

-- The map `legalTransitions`; a missing key has no targets.
unfoldable pub legal_transitions : State → List State
legal_transitions pending = delivered ∷ acknowledged ∷ expired ∷ canceled ∷ []
legal_transitions delivered = delivered ∷ acknowledged ∷ expired ∷ canceled ∷ []
legal_transitions acknowledged = acknowledged ∷ []
legal_transitions expired = expired ∷ []
legal_transitions canceled = canceled ∷ []
legal_transitions (unknown t) = []

abbrev pub states : List State
states = pending ∷ delivered ∷ acknowledged ∷ expired ∷ canceled ∷ []

unfoldable pub valid : State → Bool
unfolding same
valid s = any (same s) states

unfoldable pub terminal : State → Bool
terminal acknowledged = true
terminal expired = true
terminal canceled = true
terminal _ = false

unfoldable pub can_transition : State → State → Bool
unfolding same legal_transitions
can_transition from to = any (same to) (legal_transitions from)

unfoldable pub is_idempotent : State → State → Bool
unfolding can_transition same
is_idempotent from to = same from to && not (same from (unknown "")) && can_transition from to

pub data TransitionError : Type 0 where
  illegal_transition unknown_state : TransitionError

unfoldable pub transition : State → State → State × Option TransitionError
unfolding valid can_transition
transition from to =
    if not (valid from) || not (valid to)
    then (from, some unknown_state)
    else if not (can_transition from to)
    then (from, some illegal_transition)
    else (to, none)
