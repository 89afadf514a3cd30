-- ===== src/Element/Tree/Placed.antt =====
-- Trees whose elements end behind their start.
use openxcap.Prelude.{ℕ, ◌≤◌, Bool, true, false, List, [], ◌∷◌, All, All-append, if◌then◌else◌}
use openxcap.Xpath.{Step}
use openxcap.Element.Tree.{
  Tree, element, Forest, nil, cons, Match, passes, count_of, matches_below, matches_in, selected,
}

unfoldable mutual
  pub IsPlaced : Tree → Type 0
  IsPlaced (element n attrs s e f) = (s ≤ e) × AllPlaced f

  pub AllPlaced : Forest → Type 0
  AllPlaced nil = Unit
  AllPlaced (cons t f) = IsPlaced t × AllPlaced f

abbrev pub EndsBehind : Match → Type 0
EndsBehind m = m.start ≤ m.end

All-if : (b : Bool) (ms : List Match) → All EndsBehind ms → All EndsBehind (if b then ms else [])
All-if true ms h = h
All-if false ms h = tt

mutual
  unfolding IsPlaced matches_below

  matches_below-EndsBehind :
      (t : Tree) (steps : List Step) → IsPlaced t → All EndsBehind (matches_below t steps)
  matches_below-EndsBehind (element n attrs s e f) [] h = (h.0, tt)
  matches_below-EndsBehind (element n attrs s e f) (step ∷ steps) h =
      matches_in-EndsBehind f step steps 0 h.1

  matches_in-EndsBehind :
      (f : Forest) (step : Step) (steps : List Step) (k : ℕ)
      → AllPlaced f
      → All EndsBehind (matches_in f step steps k)
  matches_in-EndsBehind nil step steps k h = tt
  matches_in-EndsBehind (cons t f) step steps k h =
      All-append EndsBehind (if passes step k t then matches_below t steps else [])
        (matches_in f step steps (count_of step t k))
        (All-if (passes step k t) (matches_below t steps) (matches_below-EndsBehind t steps h.0))
        (matches_in-EndsBehind f step steps (count_of step t k) h.1)

pub selected-EndsBehind :
    (selector : List Step) (t : Tree) → IsPlaced t → All EndsBehind (selected selector t)
unfolding selected IsPlaced
selected-EndsBehind [] t h = tt
selected-EndsBehind (step ∷ steps) t h = matches_in-EndsBehind (cons t nil) step steps 0 (h, tt)
