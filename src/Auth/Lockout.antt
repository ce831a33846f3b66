-- ===== src/Auth/Lockout.antt =====
-- How many wrong passwords one key can try within a cooldown.
use parcel_explorer.Prelude.{
  ℕ, suc, ◌+◌, ◌≤◌, ◌<◌, String, ◌≡◌, refl, ◌≢◌, ◌∙◌, ap, ◌⊎◌, inl, inr, true, false, ◌&&◌, some,
  List, [], ◌∷◌, arith, leb, str_eq, eq_iff, length, count, keep, count-append, count-le-length,
  All, lookup, Bool-cases, lookup-remove, if◌then◌else◌,
}
use parcel_explorer.Auth.Limiter.{Limiter, attempts_of, is_blocked, register_failure, reset}
use parcel_explorer.Auth.Service.{Backend, checked}
use parcel_explorer.Auth.Service
use parcel_explorer.Auth.Session.{Session, AuthConfig}
use parcel_explorer.Auth.Routes.{LoginRequest, limiter_key, login}
use parcel_explorer.Auth.Outcomes.{is_rejection, login_cases, login_success_iff}
use parcel_explorer.Auth.Failures.{
  SameAt, is_blocked-SameAt, reset-SameAt, register_failure-SameAt, register_failure_cases,
  is_blocked_self, is_blocked_before, register_failure_fields, count-kept,
}

-- a login form with the session of its cookie
pub record Attempt : Type 0 where
  pub request : LoginRequest
  pub session : Session

-- `key` is blocked up to `end` at least
abbrev IsBlockedTo : String → ℕ → Limiter → Type 0
IsBlockedTo key end s = (until : ℕ) × (lookup key s.blocked_until ≡ some until) × (end ≤ until)

SameAt-trans : {k : String} {s t u : Limiter} → SameAt k s t → SameAt k t u → SameAt k s u
SameAt-trans h g = record {
  attempts = g.attempts ∙ h.attempts;
  blocked = g.blocked ∙ h.blocked;
  max_attempts = g.max_attempts ∙ h.max_attempts;
  cooldown = g.cooldown ∙ h.cooldown;
}

module _ (b : Backend) (config : AuthConfig) where
  -- The logins run one after the other on one limiter; the answers 401 that the key gets are counted.
  unfoldable pub rejections : String → Limiter → List Attempt → ℕ
  rejections key s [] = 0
  rejections key s (a ∷ more) =
      let answer = login b config a.request a.session s in
      (if str_eq (limiter_key a.request) key && is_rejection answer.0 then 1 else 0)
      + rejections key answer.2 more

  -- The attempts of the key fall within a cooldown from `start`, and none has the right password.
  pub record IsGuess (key : String) (start cooldown : ℕ) (r : LoginRequest) : Type 0 where
    pub checked_before : r.checked_at < start + cooldown
    pub failed_since : start ≤ r.failed_at
    pub failed_before : r.failed_at < start + cooldown
    pub wrong : b.checkpw r.password config.admin_pw_hash ≢ checked true

  abbrev pub AreGuesses : String → ℕ → ℕ → List Attempt → Type 0
  AreGuesses key start cooldown attempts =
      All (λ (a : Attempt). limiter_key a.request ≡ key → IsGuess key start cooldown a.request)
        attempts

  -- a login under another key
  login-SameAt :
      (key : String) (r : LoginRequest) (session : Session) (s : Limiter)
      → limiter_key r ≢ key
      → SameAt key s (login b config r session s).2
  login-SameAt key r session s ne =
      let j = limiter_key r in
      let s' = (is_blocked j r.checked_at s).1 in
      let same = is_blocked-SameAt key j r.checked_at s ne in
      elim (login_cases b config r session s) [
        | inl (_, e) ↦
            rw e (record { attempts = refl; blocked = refl; max_attempts = refl; cooldown = refl })
        | inr (inl (_, e)) ↦ rw e same
        | inr (inr (inl (_, _, e))) ↦
            rw e (SameAt-trans same (register_failure-SameAt j r.failed_at s' key ne))
        | inr (inr (inr (_, e))) ↦ rw e (SameAt-trans same (reset-SameAt key j s' ne))
      ]

  login_blocked :
      (r : LoginRequest) (session : Session) (s : Limiter)
      → is_blocked (limiter_key r) r.checked_at s ≡ (true, s)
      → (is_rejection (login b config r session s).0 ≡ false) × ((login b config r session s).2 ≡ s)
  unfolding login Service.login
  login_blocked r session s h = ground arith

  rejections_blocked :
      (key : String) (start : ℕ) (attempts : List Attempt) (s : Limiter)
      → IsBlockedTo key (start + s.cooldown) s
      → AreGuesses key start s.cooldown attempts
      → rejections key s attempts ≡ 0
  unfolding rejections
  rejections_blocked key start [] s h g = refl
  rejections_blocked key start (a ∷ more) s (until, held, far) g =
      elim (Bool-cases (str_eq (limiter_key a.request) key)) [
        | inl same ↦
            let e = (eq_iff (limiter_key a.request) key).0 same in
            let (calm, kept) = login_blocked a.request a.session s (
              is_blocked_before (limiter_key a.request) a.request.checked_at until s (rw e held)
                (omega (arith, (g.0 e).checked_before))) in
            rw (calm, same, kept)
              (omega (arith, rejections_blocked key start more s (until, held, far) g.1))
        | inr other ↦
            let same =
              login-SameAt key a.request a.session s
                (λ e. ground (arith, eq_iff (limiter_key a.request) key)) in
            rw other (
              omega (
                arith,
                rejections_blocked key start more (login b config a.request a.session s).2
                    (until, same.blocked ∙ held, rw same.cooldown far) (rw same.cooldown g.1),
              ))
      ]

  record IsOpen (key : String) (m c : ℕ) (s : Limiter) : Type 0 where
    max_is : s.max_attempts ≡ m
    cooldown_is : s.cooldown ≡ c
    few : length (attempts_of key s) < m

  -- the wrong attempts since `start` that the limiter remembers
  abbrev remembered : String → ℕ → Limiter → ℕ
  remembered key start s = count (leb start) (attempts_of key s)

  -- a rejected guess is remembered, or blocks the key
  failure_cases :
      (key : String) (start m c failed_at : ℕ) (s : Limiter)
      → IsOpen key m c s
      → start ≤ failed_at
      → failed_at < start + c
      → IsBlockedTo key (start + c) (register_failure key failed_at s)
        ⊎ (IsOpen key m c (register_failure key failed_at s)
            × (remembered key start (register_failure key failed_at s)
                ≡ suc (remembered key start s)))
  failure_cases key start m c failed_at s o from to =
      let fields = register_failure_fields key failed_at s in
      let old = keep (λ t. leb failed_at (t + s.cooldown)) (attempts_of key s) in
      elim (register_failure_cases key failed_at s) [
        | inl (full, _, held) ↦ inl (failed_at + s.cooldown, held, omega (arith, o.cooldown_is))
        | inr (room, kept, _) ↦ inr (
          record {
            max_is = fields.0 ∙ o.max_is;
            cooldown_is = fields.1 ∙ o.cooldown_is;
            few = rw kept (omega (arith, o.max_is));
          },
          rw kept (
              ground (
                arith,
                count-append (leb start) old (failed_at ∷ []),
                count-kept start failed_at s.cooldown (attempts_of key s),
              )),
        )
      ]

  IsOpen-same :
      {key : String} {m c : ℕ} {s s' : Limiter}
      → IsOpen key m c s
      → attempts_of key s' ≡ attempts_of key s
      → s'.max_attempts ≡ s.max_attempts
      → s'.cooldown ≡ s.cooldown
      → IsOpen key m c s'
  IsOpen-same o a x d = record {
    max_is = x ∙ o.max_is;
    cooldown_is = d ∙ o.cooldown_is;
    few = rw a o.few;
  }

  -- A guess is not rejected and changes nothing that counts, or is registered as a failure.
  guess_cases :
      (key : String) (m c : ℕ) (r : LoginRequest) (session : Session) (s : Limiter)
      → limiter_key r ≡ key
      → b.checkpw r.password config.admin_pw_hash ≢ checked true
      → IsOpen key m c s
      → ((is_rejection (login b config r session s).0 ≡ false)
          × IsOpen key m c (login b config r session s).2
          × (attempts_of key (login b config r session s).2 ≡ attempts_of key s))
        ⊎ ((is_rejection (login b config r session s).0 ≡ true)
            × ((s' : Limiter) × IsOpen key m c s'
                × (attempts_of key s' ≡ attempts_of key s)
                × ((login b config r session s).2 ≡ register_failure key r.failed_at s')))
  guess_cases key m c r session s e wrong o =
      let s' = (is_blocked (limiter_key r) r.checked_at s).1 in
      let (same, sm, sc) = is_blocked_self (limiter_key r) r.checked_at s in
      let same' : attempts_of key s' ≡ attempts_of key s = rw (← e) same in
      elim (login_cases b config r session s) [
        | inl (calm, e') ↦ inl (calm, rw e' o, rw e')
        | inr (inl (calm, e')) ↦ inl (calm, rw e' (IsOpen-same o same' sm sc), rw e' same')
        | inr (inr (inl (_, hit, e'))) ↦
            inr (hit, (s', IsOpen-same o same' sm sc, same', e' ∙ rw e))
        | inr (inr (inr (won, _))) ↦
            absurd (wrong ((login_success_iff b config r session s).0 won).3)
      ]

  rejections_after_block :
      (key : String) (start m c : ℕ) (more : List Attempt) (s : Limiter) (failed_at : ℕ)
      → IsOpen key m c s
      → IsBlockedTo key (start + c) (register_failure key failed_at s)
      → AreGuesses key start c more
      → rejections key (register_failure key failed_at s) more ≡ 0
  rejections_after_block key start m c more s failed_at o blocked g =
      let same : (register_failure key failed_at s).cooldown ≡ c =
        (register_failure_fields key failed_at s).1 ∙ o.cooldown_is in
      rejections_blocked key start more (register_failure key failed_at s) (rw same blocked)
        (rw same g)

  rejections_open :
      (key : String) (start m c : ℕ) (attempts : List Attempt) (s : Limiter)
      → IsOpen key m c s
      → AreGuesses key start c attempts
      → rejections key s attempts + remembered key start s ≤ m
  unfolding rejections
  rejections_open key start m c [] s o g =
      omega (arith, count-le-length (leb start) (attempts_of key s), o.few)
  rejections_open key start m c (a ∷ more) s o g =
      elim (Bool-cases (str_eq (limiter_key a.request) key)) [
        | inl same ↦
            let e = (eq_iff (limiter_key a.request) key).0 same in
            let guess = g.0 e in
            elim (guess_cases key m c a.request a.session s e guess.wrong o) [
              | inl (calm, o', kept) ↦
                  rw (same, calm)
                    (omega (
                      arith,
                      rejections_open key start m c more (login b config a.request a.session s).2 o'
                          g.1,
                      ap (λ ts. count (leb start) ts) kept,
                    ))
              | inr (hit, (s', o', kept, e')) ↦
                  rw (same, hit, e')
                    (elim (failure_cases key start m c a.request.failed_at s' o' guess.failed_since
                      guess.failed_before) [
                        | inl blocked ↦ omega (
                          arith,
                          rejections_after_block key start m c more s' a.request.failed_at o'
                              blocked g.1,
                          count-le-length (leb start) (attempts_of key s),
                          o.few,
                        )
                        | inr (o'', one_more) ↦ omega (
                          arith,
                          rejections_open key start m c more
                              (register_failure key a.request.failed_at s') o'' g.1,
                          one_more,
                          ap (λ ts. count (leb start) ts) kept,
                        )
                      ])
            ]
        | inr other ↦
            let same =
              login-SameAt key a.request a.session s
                (λ e. ground (arith, eq_iff (limiter_key a.request) key)) in
            let s' = (login b config a.request a.session s).2 in
            let o' : IsOpen key m c s' =
              IsOpen-same o same.attempts same.max_attempts same.cooldown in
            rw other (
              omega (
                arith,
                rejections_open key start m c more s' o' g.1,
                ap (λ ts. count (leb start) ts) same.attempts,
              ))
      ]

-- Take a limiter that remembers fewer than `max_attempts` failures of a key, and any logins, one after
-- the other, of which those under this key fall within one cooldown and none has the right password.
-- However they are ordered, whatever their sessions and whatever other keys do in between, at most
-- `max_attempts` of the logins under the key are answered 401.
pub rejections-le-max_attempts :
    (b : Backend) (config : AuthConfig) (key : String) (start : ℕ) (attempts : List Attempt)
    (s : Limiter)
    → length (attempts_of key s) < s.max_attempts
    → AreGuesses b config key start s.cooldown attempts
    → rejections b config key s attempts ≤ s.max_attempts
rejections-le-max_attempts b config key start attempts s few g = omega (
  arith,
  rejections_open b config key start s.max_attempts s.cooldown attempts s
      (record { max_is = refl; cooldown_is = refl; few = few }) g,
)

abbrev pub RemembersFew : Limiter → Type 0
RemembersFew s = (key : String) → length (attempts_of key s) < s.max_attempts

few-of_SameAt :
    (key : String) (s s' : Limiter)
    → SameAt key s s'
    → length (attempts_of key s) < s.max_attempts
    → length (attempts_of key s') < s'.max_attempts
few-of_SameAt key s s' same h =
    omega (arith, ap (λ ts. length ts) same.attempts, same.max_attempts, h)

few-after_failure :
    (key : String) (now : ℕ) (s : Limiter)
    → length (attempts_of key s) < s.max_attempts
    → length (attempts_of key (register_failure key now s))
      < (register_failure key now s).max_attempts
few-after_failure key now s h =
    let fields = register_failure_fields key now s in
    elim (register_failure_cases key now s) [
      | inl (_, none_left, _) ↦ rw none_left (omega (arith, fields.0))
      | inr (room, kept, _) ↦ rw kept (omega (arith, fields.0))
    ]

is_blocked-RemembersFew :
    (j : String) (now : ℕ) (s : Limiter) → RemembersFew s → RemembersFew (is_blocked j now s).1
unfolding is_blocked
is_blocked-RemembersFew j now s h key = ground (arith, h key)

register_failure-RemembersFew :
    (j : String) (now : ℕ) (s : Limiter) → RemembersFew s → RemembersFew (register_failure j now s)
register_failure-RemembersFew j now s h key = elim (Bool-cases (str_eq j key)) [
  | inl same ↦ rw (← (eq_iff j key).0 same) (few-after_failure j now s (h j))
  | inr other ↦
      few-of_SameAt key s _
        (register_failure-SameAt j now s key (λ e. ground (arith, eq_iff j key))) (h key)
]

reset-RemembersFew : (j : String) (s : Limiter) → RemembersFew s → RemembersFew (reset j s)
unfolding reset
reset-RemembersFew j s h key = ground (arith, h key, lookup-remove j key s.attempts)

-- A login, whatever its answer, keeps the limiter at fewer than `max_attempts` remembered failures of
-- every key.
pub login-RemembersFew :
    (b : Backend) (config : AuthConfig) (r : LoginRequest) (session : Session) (s : Limiter)
    → RemembersFew s
    → RemembersFew (login b config r session s).2
login-RemembersFew b config r session s h =
    let j = limiter_key r in
    let h' = is_blocked-RemembersFew j r.checked_at s h in
    elim (login_cases b config r session s) [
      | inl (_, e) ↦ rw e h
      | inr (inl (_, e)) ↦ rw e h'
      | inr (inr (inl (_, _, e))) ↦ rw e (register_failure-RemembersFew j r.failed_at _ h')
      | inr (inr (inr (_, e))) ↦ rw e (reset-RemembersFew j _ h')
    ]
