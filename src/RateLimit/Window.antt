-- ===== src/RateLimit/Window.antt =====
-- Counting the grants that are still in a window, and what pruning and eviction do to a bucket.
use parcel_explorer.Prelude.{
  ℕ, ◌+◌, ◌≤◌, ◌<◌, ◌≡◌, true, List, [], ◌∷◌, ◌++◌, refl, arith, ltb, leb, length, ◌&&◌, count, All,
  All-append,
}
use parcel_explorer.RateLimit.{prune, is_expired}

-- the grants that a window ending at `time` still holds
abbrev pub live : ℕ → ℕ → List ℕ → ℕ
live window time = count (λ t. ltb time (t + window))

-- the grants in the half-open window (time - window, time]
abbrev pub recent : ℕ → ℕ → List ℕ → ℕ
recent window time = count (λ t. leb t time && ltb time (t + window))

abbrev pub IsOrdered : List ℕ → Type 0
IsOrdered [] = Unit
IsOrdered (t ∷ ts) = All (λ u. t ≤ u) ts × IsOrdered ts

module _ (window now : ℕ) where
  pub live-prune :
      (time : ℕ) (ts : List ℕ)
      → now ≤ time
      → live window time (prune window now ts) ≡ live window time ts
  unfolding prune
  live-prune time [] h = refl
  live-prune time (t ∷ ts) h = ground (arith, live-prune time ts h)

  pub prune-IsOrdered : (ts : List ℕ) → IsOrdered ts → IsOrdered (prune window now ts)
  unfolding prune
  prune-IsOrdered [] h = tt
  prune-IsOrdered (t ∷ ts) h = ground (arith, prune-IsOrdered ts h.1)

  pub prune-All : (P : ℕ → Type 0) (ts : List ℕ) → All P ts → All P (prune window now ts)
  unfolding prune
  prune-All P [] h = tt
  prune-All P (t ∷ ts) h = ground (arith, prune-All P ts h.1)

  live-of_ge :
      (t : ℕ) (ts : List ℕ)
      → now < t + window
      → All (λ u. t ≤ u) ts
      → live window now ts ≡ length ts
  live-of_ge t [] h a = refl
  live-of_ge t (u ∷ us) h a = ground (arith, live-of_ge t us h a.1)

  pub length-prune :
      (ts : List ℕ) → IsOrdered ts → length (prune window now ts) ≡ live window now ts
  unfolding prune
  length-prune [] h = refl
  length-prune (t ∷ ts) h = ground (arith, length-prune ts h.1, live-of_ge t ts)

  live-expired_last :
      (time t : ℕ) (ts : List ℕ)
      → now ≤ time
      → IsOrdered (t ∷ ts)
      → is_expired window now (t ∷ ts) ≡ true
      → live window time (t ∷ ts) ≡ 0
  unfolding is_expired
  live-expired_last time t [] h o e = ground arith
  live-expired_last time t (u ∷ us) h o e = ground (arith, live-expired_last time u us h o.1 e)

  -- an expired bucket has nothing left to count
  pub live-is_expired :
      (time : ℕ) (ts : List ℕ)
      → now ≤ time
      → IsOrdered ts
      → is_expired window now ts ≡ true
      → live window time ts ≡ 0
  live-is_expired time [] h o e = refl
  live-is_expired time (t ∷ ts) h o e = live-expired_last time t ts h o e

pub IsOrdered-append :
    (ts : List ℕ) (t : ℕ) → IsOrdered ts → All (λ u. u ≤ t) ts → IsOrdered (ts ++ t ∷ [])
IsOrdered-append [] t o a = (tt, tt)
IsOrdered-append (u ∷ us) t o a =
    (All-append (λ v. u ≤ v) us (t ∷ []) o.0 (a.0, tt), IsOrdered-append us t o.1 a.1)

pub All-le_trans : (s t : ℕ) (ts : List ℕ) → s ≤ t → All (λ u. u ≤ s) ts → All (λ u. u ≤ t) ts
All-le_trans s t [] h a = tt
All-le_trans s t (u ∷ us) h a = (omega arith, All-le_trans s t us h a.1)

module _ (window : ℕ) where
  -- fewer grants are live later
  pub live-antitone : (s t : ℕ) (ts : List ℕ) → s ≤ t → live window t ts ≤ live window s ts
  live-antitone s t [] h = omega arith
  live-antitone s t (u ∷ us) h = ground (arith, live-antitone s t us h)

  pub recent-le-live : (t : ℕ) (ts : List ℕ) → recent window t ts ≤ live window t ts
  recent-le-live t [] = omega arith
  recent-le-live t (u ∷ us) = ground (arith, recent-le-live t us)
