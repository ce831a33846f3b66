-- ===== src/Auth/Limiter.antt =====
-- `LoginAttemptLimiter` of app/auth_security.py. Times are ticks, as in `RateLimit`; `now` is what
-- `time.time()` returned. The lock is not modelled: a method is one step. A `max_attempts` below 0
-- acts as 0 does; a negative cooldown is not modelled.
use parcel_explorer.Prelude.{
  ℕ, ◌+◌, String, Bool, true, false, none, some, List, [], ◌∷◌, ◌++◌, ltb, leb, ◌==◌, length, keep,
  Dict, lookup, insert, remove, or_else, if◌then◌else◌,
}

pub record Limiter : Type 0 where
  pub max_attempts : ℕ
  pub cooldown : ℕ
  pub attempts : Dict (List ℕ)
  pub blocked_until : Dict ℕ

abbrev pub new_limiter : ℕ → ℕ → Limiter
new_limiter max_attempts cooldown = record {
  max_attempts = max_attempts;
  cooldown = cooldown;
  attempts = [];
  blocked_until = [];
}

abbrev pub attempts_of : String → Limiter → List ℕ
attempts_of key s = or_else (lookup key s.attempts) []

-- [ts for ts in self._attempts.get(key, []) if ts >= now - cooldown]
unfoldable pub cleanup : String → ℕ → Limiter → Limiter
cleanup key now s = record s {
  attempts = insert key (keep (λ t. leb now (t + s.cooldown)) (attempts_of key s)) s.attempts;
}

-- A stored time of 0 is falsy, so neither test passes on it.
unfoldable pub is_blocked : String → ℕ → Limiter → Bool × Limiter
is_blocked key now s = elim (lookup key s.blocked_until) [
  | none ↦ (false, s)
  | some t ↦
      if t == 0
      then (false, s)
      else if ltb now t
      then (true, s)
      else (false, record s { blocked_until = remove key s.blocked_until })
]

-- self._attempts.setdefault(key, []).append(now)
abbrev pub append_attempt : String → ℕ → Limiter → Limiter
append_attempt key now s = record s {
  attempts = insert key (attempts_of key s ++ now ∷ []) s.attempts;
}

unfoldable pub register_failure : String → ℕ → Limiter → Limiter
unfolding cleanup
register_failure key now s =
    let s' = append_attempt key now (cleanup key now s) in
    if leb s'.max_attempts (length (attempts_of key s'))
    then record s' {
      blocked_until = insert key (now + s'.cooldown) s'.blocked_until;
      attempts = insert key [] s'.attempts;
    }
    else s'

unfoldable pub reset : String → Limiter → Limiter
reset key s = record s {
  attempts = remove key s.attempts;
  blocked_until = remove key s.blocked_until;
}
