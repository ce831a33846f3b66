-- ===== src/Export/Command.antt =====
-- Which commands `validate_raw_query_export_command` of app/services/raw_query_export_service.py accepts, and what it
-- makes of them.
use parcel_explorer.Prelude.{
  max, ℕ, ◌+◌, ◌≤◌, ◌<◌, ◌≡◌, ◌≢◌, ◌⊎◌, inl, inr, refl, ◌∙◌, Text, true, false, not, ◌||◌, Option,
  none, some, [], ◌∷◌, ℤ, pos, negsuc, clamp_ℤ, arith, CharTests, strip, String, str_eq, ltb,
  Bool-cases, if◌then◌else◌,
}
use parcel_explorer.Export.Query.{
  Calendar, RawQueryExportCommand, ValidatedRawQueryExport, exported, rejected, text_ltb, given,
  day_of, day_after, parse_date_start, parse_date_end_exclusive, validate_raw_query_export_command,
}

-- From `first`, where years of four digits begin, to `last`, the texts are ordered as the days; before `last`, a day
-- has a next one.
pub record IsCalendar (calendar : Calendar) (first last : ℕ) : Type 0 where
  pub ordered :
      (day other : ℕ)
      → first ≤ day
      → first ≤ other
      → day ≤ last
      → other ≤ last
      → text_ltb (calendar.strftime day) (calendar.strftime other) ≡ ltb day other
  pub next : (day : ℕ) → day < last → calendar.next_day day ≡ some (day + 1)

-- The text is not blank and is the date of a day from `first` on and before `last`.
pub record IsDate (chars : CharTests) (calendar : Calendar) (first last : ℕ) (raw : Option Text)
    (day : ℕ) : Type 0 where
  pub text : Text
  pub is_given : raw ≡ some text
  pub not_blank : strip chars text ≢ []
  pub parsed : calendar.strptime text ≡ some day
  pub from_first : first ≤ day
  pub to_last : day < last

abbrev pub IsKnown : String → Type 0
IsKnown event_type =
    (str_eq event_type "all" ≡ true)
    ⊎ ((str_eq event_type "search" ≡ true) ⊎ (str_eq event_type "land_click" ≡ true))

abbrev pub at_least_0 : ℤ → ℕ
at_least_0 (pos n) = n
at_least_0 (negsuc n) = 0

-- From 1 to the configured maximum, or 1 where that is below 1; and it is what was asked for, or 1 where that is
-- below 1, or the maximum where that is exceeded.
pub record IsLimit (asked maximum : ℤ) (n : ℕ) : Type 0 where
  pub some_row : 1 ≤ n
  pub few_rows : n ≤ max 1 (at_least_0 maximum)
  pub cases :
      (n ≡ at_least_0 asked)
      ⊎ (((n ≡ 1) × (at_least_0 asked ≡ 0))
          ⊎ ((n ≡ max 1 (at_least_0 maximum)) × (n < at_least_0 asked)))

clamp_ℤ-IsLimit : (asked maximum : ℤ) → IsLimit asked maximum (clamp_ℤ 1 asked maximum)
clamp_ℤ-IsLimit (pos n) (pos high) = record {
  some_row = omega arith;
  few_rows = omega arith;
  cases = ground arith;
}
clamp_ℤ-IsLimit (negsuc n) (pos high) = record {
  some_row = omega arith;
  few_rows = omega arith;
  cases = ground arith;
}
clamp_ℤ-IsLimit (pos n) (negsuc high) = record {
  some_row = omega arith;
  few_rows = omega arith;
  cases = ground arith;
}
clamp_ℤ-IsLimit (negsuc n) (negsuc high) = record {
  some_row = omega arith;
  few_rows = omega arith;
  cases = ground arith;
}

-- every type, or the one that was asked for
abbrev pub IsFilter : String → Option String → Type 0
IsFilter event_type none = str_eq event_type "all" ≡ true
IsFilter event_type (some filter) = (filter ≡ event_type) × (str_eq event_type "all" ≡ false)

-- the command as it is checked, for the days from `from` to `to`, both of them included
pub record IsChecked (calendar : Calendar) (command : RawQueryExportCommand) (from to : ℕ)
    (v : ValidatedRawQueryExport) : Type 0 where
  pub filter : IsFilter command.event_type v.event_type_filter
  pub limit : IsLimit command.limit command.max_rows v.effective_limit
  pub start : v.created_at_from ≡ some (calendar.strftime from)
  pub end : v.created_at_to ≡ some (calendar.strftime (to + 1))

abbrev checked : Calendar → RawQueryExportCommand → ℕ → ℕ → ValidatedRawQueryExport
checked calendar command from to = record {
  event_type_filter = if str_eq command.event_type "all" then none else some command.event_type;
  effective_limit = clamp_ℤ 1 command.limit command.max_rows;
  created_at_from = some (calendar.strftime from);
  created_at_to = some (calendar.strftime (to + 1));
}

chosen-IsFilter :
    (event_type : String)
    → IsFilter event_type (if str_eq event_type "all" then none else some event_type)
chosen-IsFilter event_type = elim (Bool-cases (str_eq event_type "all")) [
  | inl e ↦ rw e e
  | inr e ↦ rw e (refl, e)
]

checked-IsChecked :
    (calendar : Calendar) (command : RawQueryExportCommand) (from to : ℕ)
    → IsChecked calendar command from to (checked calendar command from to)
checked-IsChecked calendar command from to = record {
  filter = chosen-IsFilter command.event_type;
  limit = clamp_ℤ-IsLimit command.limit command.max_rows;
  start = refl;
  end = refl;
}

module _ (chars : CharTests) (calendar : Calendar) {first last : ℕ} where
  given-IsDate :
      {raw : Option Text} {day : ℕ} (d : IsDate chars calendar first last raw day)
      → given chars calendar raw ≡ some d.text
  given-IsDate {raw} {day} d = rw d.is_given (go (strip chars d.text) refl)
    where
      go :
          (stripped : Text)
          → strip chars d.text ≡ stripped
          → given chars calendar (some d.text) ≡ some d.text
      go [] e = absurd (d.not_blank e)
      go (c ∷ text) e = rw (given, e) refl

  parse_date_start-IsDate :
      {raw : Option Text} {day : ℕ}
      → IsDate chars calendar first last raw day
      → parse_date_start chars calendar raw ≡ exported (some (calendar.strftime day))
  unfolding parse_date_start
  parse_date_start-IsDate d = rw (given-IsDate d, day_of, d.parsed) refl

  parse_date_end_exclusive-IsDate :
      {raw : Option Text} {day : ℕ}
      → IsCalendar calendar first last
      → IsDate chars calendar first last raw day
      → parse_date_end_exclusive chars calendar raw ≡ exported (some (calendar.strftime (day + 1)))
  unfolding parse_date_end_exclusive
  parse_date_end_exclusive-IsDate {day = day} c d =
      rw (given-IsDate d, day_of, d.parsed, day_after, c.next day d.to_last) refl

  -- the checks of a command with two dates
  validate-IsDate :
      (command : RawQueryExportCommand) (from to : ℕ)
      → IsCalendar calendar first last
      → IsDate chars calendar first last command.date_from from
      → IsDate chars calendar first last command.date_to to
      → validate_raw_query_export_command chars calendar command ≡ (
          if not (
            str_eq command.event_type "all"
            || str_eq command.event_type "search"
            || str_eq command.event_type "land_click")
          then rejected 400 "event_type must be one of: all, search, land_click."
          else if not (ltb from (to + 1))
          then rejected 400 "date_from must be earlier than or equal to date_to."
          else exported (checked calendar command from to))
  unfolding validate_raw_query_export_command
  validate-IsDate command from to c d e =
      rw
        (
          parse_date_start-IsDate d,
          parse_date_end_exclusive-IsDate c e,
          c.ordered from (to + 1) d.from_first (omega (arith, e.from_first))
              (omega (arith, d.to_last)) (omega (arith, e.to_last)),
        )
        refl

  -- A command with two dates, both from `first` on and before `last`, is accepted exactly if its type of event is
  -- known and the first date is not later than the second. It is then checked for that type, for the days from the
  -- first date to the second, both included, and with a limit that is the one asked for, or 1 where that is below 1,
  -- or the configured one where that is exceeded. Any other such command is answered with the status 400. The texts of
  -- the days from `first` to `last` are taken to be ordered as the days, and each day but `last` to have a next one.
  pub validate_raw_query_export_command_iff :
      (command : RawQueryExportCommand) (from to : ℕ)
      → IsCalendar calendar first last
      → IsDate chars calendar first last command.date_from from
      → IsDate chars calendar first last command.date_to to
      → (IsKnown command.event_type
          × (from ≤ to)
          × ((v : ValidatedRawQueryExport) × validate_raw_query_export_command chars calendar
                  command
                ≡ exported v
              × IsChecked calendar command from to v))
        ⊎ (¬ (IsKnown command.event_type × (from ≤ to))
            × ((message : String) × validate_raw_query_export_command chars calendar command
                  ≡ rejected 400 message))
  validate_raw_query_export_command_iff command from to c d e =
      elim (Bool-cases (
        str_eq command.event_type "all"
        || str_eq command.event_type "search"
        || str_eq command.event_type "land_click")) [
          | inr k ↦ inr (
            (λ h. ground (arith, k, h.0)),
            (
              "event_type must be one of: all, search, land_click.",
              validate-IsDate command from to c d e ∙ rw k refl,
            ),
          )
          | inl k ↦ elim (Bool-cases (ltb from (to + 1))) [
            | inr t ↦ inr (
              (λ h. ground (arith, t, h.1)),
              (
                "date_from must be earlier than or equal to date_to.",
                validate-IsDate command from to c d e ∙ rw (k, t) refl,
              ),
            )
            | inl t ↦ inl (
              ground (arith, k),
              ground (arith, t),
              (
                checked calendar command from to,
                validate-IsDate command from to c d e ∙ rw (k, t) refl,
                checked-IsChecked calendar command from to,
              ),
            )
          ]
        ]
