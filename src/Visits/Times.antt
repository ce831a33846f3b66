-- ===== src/Visits/Times.antt =====
-- The time of a visit, `parse_client_ts` of app/services/web_stats_normalizers.py.
use parcel_explorer.Prelude.{
  ◌<◌, ◌⊎◌, inl, inr, ℕ, ◌+◌, ◌-◌, ◌/◌, ◌≤◌, ◌≡◌, refl, sym, Text, Bool, true, false, Option, none,
  some, arith, if◌then◌else◌,
}
use parcel_explorer.Events.Normalize.{returned}
use parcel_explorer.Visits.Normalize.{
  WebValues, Timestamp, moment, not_float, float_overflow, no_moment, ahead, week, within_week,
  written, client_time, parse_client_ts,
}
use parcel_explorer.Visits.Gives.{returned-injective}

-- the whole seconds up to a time
abbrev pub seconds : ℕ → ℕ
seconds time = time / 1000000

-- The client's time if it lies in the window, the server's if it is later, and the start of the window if it is
-- earlier.
abbrev pub IsTimely : ℕ → ℕ → ℕ → Type 0
IsTimely now event second =
    ((second ≡ seconds event) × (now - week ≤ event) × (event ≤ now + ahead))
    ⊎ (((second ≡ seconds now) × (now + ahead < event))
        ⊎ ((second ≡ seconds (now - week)) × (event < now - week)))

within_week-IsTimely : (now event : ℕ) → IsTimely now event (seconds (within_week now event))
within_week-IsTimely now event = ground arith

within_week-ge : (now event : ℕ) → now - week ≤ within_week now event
within_week-ge now event = ground arith

within_week-le : (now event : ℕ) → within_week now event ≤ now + ahead
within_week-le now event = ground arith

seconds-le : (time time' : ℕ) → time ≤ time' → seconds time ≤ seconds time'
seconds-le time time' h = omega arith

-- no time, or an empty text
abbrev pub IsUntimed : {V : Type 0} → WebValues V → Option V → Type 0
IsUntimed values none = Unit
IsUntimed values (some v) = values.is_empty_text v ≡ true

-- the text is that of a whole second, from the one of a week ago to the one of five minutes ahead
pub record IsRecent {V : Type 0} (values : WebValues V) (now : ℕ) (raw : Option V) (text : Text)
    : Type 0 where
  pub second : ℕ
  pub of_second : text ≡ values.strftime second
  pub not_old : seconds (now - week) ≤ second
  pub not_ahead : second ≤ seconds (now + ahead)
  pub origin :
      (IsUntimed values raw × (second ≡ seconds now))
      ⊎ ((v : V) × (event : ℕ) × (raw ≡ some v)
          × (values.fromtimestamp v ≡ moment event)
          × IsTimely now event second)

module _ {V : Type 0} (values : WebValues V) where
  now-IsRecent :
      (now : ℕ) (raw : Option V) (text : Text)
      → IsUntimed values raw
      → returned (written values now) ≡ returned text
      → IsRecent values now raw text
  now-IsRecent now raw text u h = record {
    second = seconds now;
    of_second = sym (returned-injective (written values now) text h);
    not_old = seconds-le (now - week) now (omega arith);
    not_ahead = seconds-le now (now + ahead) (omega arith);
    origin = inl (u, refl);
  }

  -- The time that is stored with a visit is a whole second, not before that of a week before the server's time and
  -- not after that of five minutes after it. It is the second of the server's own time if the client sends none, or
  -- one that is more than five minutes later; of the start of that week if the client's is earlier; and else of the
  -- client's, without its fraction.
  pub parse_client_ts-IsRecent :
      (now : ℕ) (raw : Option V) (text : Text)
      → parse_client_ts values now raw ≡ returned text
      → IsRecent values now raw text
  unfolding parse_client_ts
  parse_client_ts-IsRecent now none text h = now-IsRecent now none text tt h
  parse_client_ts-IsRecent now (some v) text h = by_text (values.is_empty_text v) refl h
    where
      by_time :
          (found : Timestamp)
          → values.fromtimestamp v ≡ found
          → client_time values now found ≡ returned text
          → IsRecent values now (some v) text
      by_time not_float f h = absurd (ground (arith, h))
      by_time float_overflow f h = absurd (ground (arith, h))
      by_time no_moment f h = absurd (ground (arith, h))
      by_time (moment event) f h =
          let time = within_week now event in
          record {
            second = seconds time;
            of_second = sym (returned-injective (written values time) text h);
            not_old = seconds-le (now - week) time (within_week-ge now event);
            not_ahead = seconds-le time (now + ahead) (within_week-le now event);
            origin = inr (v, event, refl, f, within_week-IsTimely now event);
          }

      by_text :
          (empty : Bool)
          → values.is_empty_text v ≡ empty
          → (if empty
              then returned (written values now)
              else client_time values now (values.fromtimestamp v))
            ≡ returned text
          → IsRecent values now (some v) text
      by_text true e h = now-IsRecent now (some v) text e h
      by_text false e h = by_time (values.fromtimestamp v) refl h
