-- ===== src/XcapDiff/Limit.antt =====
-- The limit on the rate of publications of one user's changes.
use openxcap.Prelude.{
  ℕ, ◌+◌, ◌≤◌, ◌≡◌, refl, ◌∙◌, Option, none, some, List, [], ◌∷◌, Str, is_empty, if◌then◌else◌, leb,
  Dict, arith, Bool-cases, Option-cases, inl, inr, ◌⊎◌,
}
use openxcap.XcapDiff.{
  Change, UserChanges, min_wait, schedule, call_at_limited_rate, add_change, end_of_sleep,
}

-- what happens to the changes of a user
pub data Event : Type 0 where
  changed : ℕ → Str → Option Str → Option Str → Event
  woken : ℕ → Event

abbrev pub time_of : Event → ℕ
time_of (changed now uri old new) = now
time_of (woken now) = now

abbrev pub after : Event → UserChanges → List (Dict Change) × UserChanges
after (changed now uri old new) u = add_change now uri old new u
after (woken now) u = end_of_sleep now u

-- an event that can come next: the clock does not go back, and a sleep ends when it is due
abbrev pub CanFollow : Event → UserChanges → Type 0
CanFollow (changed now uri old new) u = u.last_call ≤ now
CanFollow (woken now) u = (due : ℕ) × (u.delayed ≡ some due) × (due ≤ now)

-- A delayed call is due once the wait is over, and changes that wait have one.
abbrev pub IsGood : UserChanges → Type 0
IsGood u =
    ((due : ℕ) → u.delayed ≡ some due → u.last_call + min_wait ≤ due)
    × (u.delayed ≡ none → u.changes ≡ [])

add_change-IsGood :
    (now : ℕ) (uri : Str) (old new : Option Str) (u : UserChanges)
    → IsGood u
    → u.last_call ≤ now
    → IsGood (add_change now uri old new u).1
unfolding add_change call_at_limited_rate schedule
add_change-IsGood now uri old new u g h = elim (Option-cases u.delayed) [
  | inl e ↦ rw e (elim (Bool-cases (leb (u.last_call + min_wait) now)) [
    | inl l ↦ rw l (λ due x. cc, λ x. refl)
    | inr l ↦ rw l (λ due x. ground arith, λ x. cc)
  ])
  | inr (due, e) ↦ rw e (λ later x. g.0 later (e ∙ x), λ x. cc)
]

end_of_sleep-IsGood : (now : ℕ) (u : UserChanges) → IsGood (end_of_sleep now u).1
unfolding end_of_sleep
end_of_sleep-IsGood now u = (λ due x. cc, λ x. refl)

-- what an event may publish: nothing, or the changes that wait, when the last call is long enough
-- ago
abbrev pub IsPublished : ℕ → UserChanges → List (Dict Change) × UserChanges → Type 0
IsPublished now u (out, v) =
    ((out ≡ []) × (u.last_call ≤ v.last_call))
    ⊎ ((u.last_call + min_wait ≤ now) × (v.last_call ≡ now))

add_change-IsPublished :
    (now : ℕ) (uri : Str) (old new : Option Str) (u : UserChanges)
    → u.last_call ≤ now
    → IsPublished now u (add_change now uri old new u)
unfolding add_change call_at_limited_rate schedule
add_change-IsPublished now uri old new u h = elim (Option-cases u.delayed) [
  | inl e ↦ rw e (elim (Bool-cases (leb (u.last_call + min_wait) now)) [
    | inl l ↦ rw l (inr (ground arith, refl))
    | inr l ↦ rw l (inl (refl, omega arith))
  ])
  | inr (due, e) ↦ rw e (inl (refl, omega arith))
]

end_of_sleep-IsPublished :
    (now due : ℕ) (u : UserChanges)
    → IsGood u
    → u.delayed ≡ some due
    → due ≤ now
    → IsPublished now u (end_of_sleep now u)
unfolding end_of_sleep
end_of_sleep-IsPublished now due u g e h = inr (omega (arith, g.0 due e), refl)

after-IsGood : (e : Event) (u : UserChanges) → IsGood u → CanFollow e u → IsGood (after e u).1
after-IsGood (changed now uri old new) u g h = add_change-IsGood now uri old new u g h
after-IsGood (woken now) u g h = end_of_sleep-IsGood now u

after-IsPublished :
    (e : Event) (u : UserChanges) → IsGood u → CanFollow e u → IsPublished (time_of e) u (after e u)
after-IsPublished (changed now uri old new) u g h = add_change-IsPublished now uri old new u h
after-IsPublished (woken now) u g (due, e, h) = end_of_sleep-IsPublished now due u g e h

-- a sequence of events that can happen from a state on
abbrev pub CanHappen : List Event → UserChanges → Type 0
CanHappen [] u = Unit
CanHappen (e ∷ es) u = CanFollow e u × CanHappen es (after e u).1

-- the times of the publications that a sequence of events makes
abbrev pub publications : List Event → UserChanges → List ℕ
publications [] u = []
publications (e ∷ es) u =
    let (out, v) = after e u in
    let rest = publications es v in if is_empty out then rest else time_of e ∷ rest

-- each time is `min_wait` behind the one before it
abbrev pub IsSpaced : ℕ → List ℕ → Type 0
IsSpaced last [] = Unit
IsSpaced last (t ∷ ts) = (last + min_wait ≤ t) × IsSpaced t ts

IsSpaced-earlier : (a b : ℕ) (ts : List ℕ) → a ≤ b → IsSpaced b ts → IsSpaced a ts
IsSpaced-earlier a b [] h s = tt
IsSpaced-earlier a b (t ∷ ts) h s = (omega arith, s.1)

one_event :
    (now : ℕ) (u v : UserChanges) (out : List (Dict Change)) (rest : List ℕ)
    → IsPublished now u (out, v)
    → IsSpaced v.last_call rest
    → IsSpaced u.last_call (if is_empty out then rest else now ∷ rest)
one_event now u v out rest (inl (e, h)) s = rw e (IsSpaced-earlier u.last_call v.last_call rest h s)
one_event now u v [] rest (inr (h, e)) s =
    IsSpaced-earlier u.last_call v.last_call rest (omega arith) s
one_event now u v (c ∷ out) rest (inr (h, e)) s = (h, rw e at s)

-- The publications of a user's changes are at least `min_wait` apart, whatever changes come and
-- however late the delayed calls are, as long as the state of the user is kept.
pub publications-IsSpaced :
    (es : List Event) (u : UserChanges)
    → IsGood u
    → CanHappen es u
    → IsSpaced u.last_call (publications es u)
publications-IsSpaced [] u g h = tt
publications-IsSpaced (e ∷ es) u g h =
    one_event (time_of e) u (after e u).1 (after e u).0 (publications es (after e u).1)
      (after-IsPublished e u g h.0)
      (publications-IsSpaced es (after e u).1 (after-IsGood e u g h.0) h.1)
