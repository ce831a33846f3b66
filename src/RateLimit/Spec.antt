-- ===== src/RateLimit/Spec.antt =====
-- What the limiter promises, on a log of all grants that is never pruned: a call is granted
-- exactly if its key has fewer than `limit` grants that its window still holds.
use parcel_explorer.Prelude.{
  ℕ, ◌*◌, ◌≤◌, String, Bool, true, false, List, [], ◌∷◌, str_eq, ltb, if◌then◌else◌,
}
use parcel_explorer.RateLimit.{Limiter, Outcome, granted, allow, ticks}
use parcel_explorer.RateLimit.Window.{live}

-- one call of `allow`, all with one window
pub record Call : Type 0 where
  pub key : String
  pub limit : ℕ
  pub now : ℕ

abbrev pub Log : Type 0
Log = List (String × ℕ)

abbrev pub times : String → Log → List ℕ
times k [] = []
times k ((j, t) ∷ log) = let rest = times k log in if str_eq j k then t ∷ rest else rest

abbrev pub may_call : ℕ → Log → Call → Bool
may_call window_seconds log c = ltb (live (window_seconds * ticks) c.now (times c.key log)) c.limit

abbrev pub is_granted : Outcome → Bool
is_granted granted = true
is_granted _ = false

abbrev pub noted : Bool → Call → Log → Log
noted b c log = if b then (c.key, c.now) ∷ log else log

-- the limiter's answers to a sequence of calls
unfoldable pub answers : ℕ → Limiter → List Call → List Bool
answers window_seconds events [] = []
answers window_seconds events (c ∷ calls) =
    let (o, events') = allow c.key c.limit window_seconds c.now events in
    is_granted o ∷ answers window_seconds events' calls

-- the promised answers
unfoldable pub spec_answers : ℕ → Log → List Call → List Bool
spec_answers window_seconds log [] = []
spec_answers window_seconds log (c ∷ calls) =
    let b = may_call window_seconds log c in b ∷ spec_answers window_seconds (noted b c log) calls

-- the clock does not run backwards
abbrev pub IsTimed : ℕ → List Call → Type 0
IsTimed last [] = Unit
IsTimed last (c ∷ calls) = (last ≤ c.now) × IsTimed c.now calls

-- the log of the grants among the calls
unfoldable pub grants : ℕ → Limiter → Log → List Call → Log
grants window_seconds events log [] = log
grants window_seconds events log (c ∷ calls) =
    let (o, events') = allow c.key c.limit window_seconds c.now events in
    grants window_seconds events' (noted (is_granted o) c log) calls
