-- ===== src/Visits/Bounds.antt =====
-- What the table of visits holds, whatever a client sends.
use parcel_explorer.Prelude.{
  ℕ, ◌+◌, ◌≤◌, ◌≡◌, ◌≢◌, ◌⊎◌, inl, inr, refl, sym, Text, Bool, true, false, ◌||◌, str_eq, Option,
  none, some, List, [], ◌∷◌, ◌++◌, length, length-take-le, arith, Bool-cases,
}
use parcel_explorer.Events.Normalize.{Outcome, returned, raised, crashed, non_empty}
use parcel_explorer.Visits.Classify.{is_bot_user_agent, classify_device_type, has, if_empty}
use parcel_explorer.Visits.Normalize.{
  WebValues, is_one_of, web_event_types, normalize_event_type, normalize_required_token,
  normalize_optional_int, normalize_page_path, parse_client_ts,
}
use parcel_explorer.Visits.Record.{
  WebVisitContext, WebVisitEventCommand, NormalizedWebVisitCore, ClientContext, MarketingContext,
  UserAgentContext, NormalizedWebVisitEvent, assemble_normalized_web_visit_event,
  normalize_web_visit_core, normalize_client_context, normalize_marketing_context, agent_text,
  derive_user_agent_context, normalize_web_visit_event, VisitTable, insert_web_visit_event, stored,
  record_web_visit_event,
}
use parcel_explorer.Visits.Times.{IsRecent, parse_client_ts-IsRecent}
use parcel_explorer.Visits.Gives.{
  IsAtMost, IsSize, IsIdentifier, Gives, returned-Gives, Gives-bind, optional_string-IsAtMost,
  query_string-IsAtMost, referrer_url-IsAtMost, required_token-Gives, event_type-Gives,
  optional_int-Gives, page_path-Gives,
}

record IsBoundedCore {V : Type 0} (values : WebValues V) (now : ℕ) (raw_ts : Option V)
    (allowed : List Text) (core : NormalizedWebVisitCore) : Type 0 where
  pub anon_id : IsIdentifier core.anon_id
  pub session_id : IsIdentifier core.session_id
  pub event_type : is_one_of core.event_type web_event_types ≡ true
  pub allowed_path : is_one_of core.page_path allowed ≡ true
  pub page_path : length core.page_path ≤ 256
  pub page_query : IsAtMost 1024 core.page_query
  pub occurred_at : IsRecent values now raw_ts core.occurred_at

record IsBoundedClient (client : ClientContext) : Type 0 where
  pub client_tz : IsAtMost 64 client.client_tz
  pub client_lang : IsAtMost 64 client.client_lang
  pub platform : IsAtMost 64 client.platform
  pub screen_width : IsSize client.screen_width
  pub screen_height : IsSize client.screen_height
  pub viewport_width : IsSize client.viewport_width
  pub viewport_height : IsSize client.viewport_height

record IsBoundedMarketing (marketing : MarketingContext) : Type 0 where
  pub referrer_url : IsAtMost 1024 marketing.referrer_url
  pub utm_source : IsAtMost 256 marketing.utm_source
  pub utm_medium : IsAtMost 256 marketing.utm_medium
  pub utm_campaign : IsAtMost 256 marketing.utm_campaign
  pub utm_term : IsAtMost 256 marketing.utm_term
  pub utm_content : IsAtMost 256 marketing.utm_content

-- the device is "bot" exactly for the agents that are taken for bots
pub record IsBoundedAgent (agent : UserAgentContext) : Type 0 where
  pub user_agent : IsAtMost 500 agent.user_agent
  pub bot_device : agent.is_bot ≡ str_eq agent.device_type "bot"

module _ {V : Type 0} (values : WebValues V) where
  core-Gives :
      (now : ℕ) (command : WebVisitEventCommand V)
      → Gives
          (IsBoundedCore values now command.client_ts command.context.allowed_web_track_paths)
          (normalize_web_visit_core values now command)
  unfolding normalize_web_visit_core
  core-Gives now command =
      Gives-bind (normalize_required_token values command.anon_id "anonId is required.")
        (required_token-Gives values command.anon_id _)
        (λ anon anon_h.
          Gives-bind (normalize_required_token values command.session_id "sessionId is required.")
            (required_token-Gives values command.session_id _)
            (λ session session_h.
              Gives-bind (normalize_event_type values command.event_type)
                (event_type-Gives values command.event_type)
                (λ type type_h.
                  Gives-bind
                    (normalize_page_path values command.page_path
                      command.context.allowed_web_track_paths)
                    (page_path-Gives values command.page_path
                      command.context.allowed_web_track_paths)
                    (λ path path_h.
                      Gives-bind (parse_client_ts values now command.client_ts)
                        (record { holds = parse_client_ts-IsRecent values now command.client_ts })
                        (λ occurred h. returned-Gives _ record {
                          anon_id = anon_h;
                          session_id = session_h;
                          event_type = type_h;
                          allowed_path = path_h.0;
                          page_path = path_h.1;
                          page_query = query_string-IsAtMost values command.page_query 1024;
                          occurred_at = h;
                        })))))

  client-Gives :
      (command : WebVisitEventCommand V)
      → Gives IsBoundedClient (normalize_client_context values command)
  unfolding normalize_client_context
  client-Gives command =
      Gives-bind (normalize_optional_int values command.screen_width 20000)
        (optional_int-Gives values command.screen_width)
        (λ width width_h.
          Gives-bind (normalize_optional_int values command.screen_height 20000)
            (optional_int-Gives values command.screen_height)
            (λ height height_h.
              Gives-bind (normalize_optional_int values command.viewport_width 20000)
                (optional_int-Gives values command.viewport_width)
                (λ view_width view_width_h.
                  Gives-bind (normalize_optional_int values command.viewport_height 20000)
                    (optional_int-Gives values command.viewport_height)
                    (λ view_height view_height_h. returned-Gives _ record {
                      client_tz = optional_string-IsAtMost values command.client_tz 64;
                      client_lang = optional_string-IsAtMost values command.client_lang 64;
                      platform = optional_string-IsAtMost values command.platform 64;
                      screen_width = width_h;
                      screen_height = height_h;
                      viewport_width = view_width_h;
                      viewport_height = view_height_h;
                    }))))

  marketing-IsBounded :
      (command : WebVisitEventCommand V)
      → IsBoundedMarketing (normalize_marketing_context values command)
  unfolding normalize_marketing_context
  marketing-IsBounded command = record {
    referrer_url = referrer_url-IsAtMost values command.referrer_url;
    utm_source = optional_string-IsAtMost values command.utm_source 256;
    utm_medium = optional_string-IsAtMost values command.utm_medium 256;
    utm_campaign = optional_string-IsAtMost values command.utm_campaign 256;
    utm_term = optional_string-IsAtMost values command.utm_term 256;
    utm_content = optional_string-IsAtMost values command.utm_content 256;
  }

  non_empty-IsAtMost : (n : ℕ) (text : Text) → length text ≤ n → IsAtMost n (non_empty text)
  non_empty-IsAtMost n [] h = tt
  non_empty-IsAtMost n (c ∷ text) h = h

  agent_text-short : (agent : Option Text) → length (agent_text values agent) ≤ 500
  agent_text-short none = omega arith
  agent_text-short (some text) = length-take-le 500 text

  if_empty-no_bot : (text : Text) → str_eq (if_empty values.lower text) "bot" ≡ false
  if_empty-no_bot [] = refl
  if_empty-no_bot (c ∷ text) = refl

  bot_device :
      (agent : Text) (is_bot : Bool)
      → is_bot ≡ str_eq (classify_device_type values.lower agent is_bot) "bot"
  unfolding classify_device_type
  bot_device agent true = refl
  bot_device agent false =
      elim (Bool-cases (has "tablet" (values.lower agent) || has "ipad" (values.lower agent))) [
        | inl e ↦ rw e
        | inr e ↦
            elim (Bool-cases (
              has "mobile" (values.lower agent)
              || has "iphone" (values.lower agent)
              || has "android" (values.lower agent))) [
                | inl f ↦ rw (e, f)
                | inr f ↦ rw (e, f) (sym (if_empty-no_bot (values.lower agent)))
              ]
      ]

  agent-IsBounded :
      (context : WebVisitContext) → IsBoundedAgent (derive_user_agent_context values context)
  unfolding derive_user_agent_context
  agent-IsBounded context = record {
    user_agent =
        non_empty-IsAtMost 500 (agent_text values context.user_agent)
          (agent_text-short context.user_agent);
    bot_device =
        bot_device (agent_text values context.user_agent)
          (is_bot_user_agent values.lower (agent_text values context.user_agent));
  }

-- the fields of a visit, each within its bound
pub record IsBoundedVisit {V : Type 0} (values : WebValues V) (now : ℕ)
    (command : WebVisitEventCommand V) (event : NormalizedWebVisitEvent) : Type 0 where
  pub anon_id : IsIdentifier event.anon_id
  pub session_id : IsIdentifier event.session_id
  pub event_type : is_one_of event.event_type web_event_types ≡ true
  pub allowed_path : is_one_of event.page_path command.context.allowed_web_track_paths ≡ true
  pub page_path : length event.page_path ≤ 256
  pub page_query : IsAtMost 1024 event.page_query
  pub occurred_at : IsRecent values now command.client_ts event.occurred_at
  pub client_tz : IsAtMost 64 event.client_tz
  pub client_lang : IsAtMost 64 event.client_lang
  pub platform : IsAtMost 64 event.platform
  pub referrer_url : IsAtMost 1024 event.referrer_url
  pub utm_source : IsAtMost 256 event.utm_source
  pub utm_medium : IsAtMost 256 event.utm_medium
  pub utm_campaign : IsAtMost 256 event.utm_campaign
  pub utm_term : IsAtMost 256 event.utm_term
  pub utm_content : IsAtMost 256 event.utm_content
  pub screen_width : IsSize event.screen_width
  pub screen_height : IsSize event.screen_height
  pub viewport_width : IsSize event.viewport_width
  pub viewport_height : IsSize event.viewport_height
  pub agent : IsBoundedAgent event.user_agent

-- the table has one row more, at its end, and the next id is one higher
pub record IsAppended (event : NormalizedWebVisitEvent) (old new : VisitTable) : Type 0 where
  pub rows : new.rows ≡ old.rows ++ (old.next_id, event) ∷ []
  pub next_id : new.next_id ≡ old.next_id + 1

insert_web_visit_event-IsAppended :
    (event : NormalizedWebVisitEvent) (table : VisitTable)
    → IsAppended event table (insert_web_visit_event event table)
unfolding insert_web_visit_event
insert_web_visit_event-IsAppended event table = record { rows = refl; next_id = refl }

module _ {V : Type 0} (values : WebValues V) where
  assembled-IsBoundedVisit :
      (now : ℕ) (command : WebVisitEventCommand V) (core : NormalizedWebVisitCore)
      (client : ClientContext) (marketing : MarketingContext) (agent : UserAgentContext)
      → IsBoundedCore values now command.client_ts command.context.allowed_web_track_paths core
      → IsBoundedClient client
      → IsBoundedMarketing marketing
      → IsBoundedAgent agent
      → IsBoundedVisit values now command
          (assemble_normalized_web_visit_event core client marketing agent)
  assembled-IsBoundedVisit now command core client marketing agent c l m a = record {
    anon_id = c.anon_id;
    session_id = c.session_id;
    event_type = c.event_type;
    allowed_path = c.allowed_path;
    page_path = c.page_path;
    page_query = c.page_query;
    occurred_at = c.occurred_at;
    client_tz = l.client_tz;
    client_lang = l.client_lang;
    platform = l.platform;
    referrer_url = m.referrer_url;
    utm_source = m.utm_source;
    utm_medium = m.utm_medium;
    utm_campaign = m.utm_campaign;
    utm_term = m.utm_term;
    utm_content = m.utm_content;
    screen_width = l.screen_width;
    screen_height = l.screen_height;
    viewport_width = l.viewport_width;
    viewport_height = l.viewport_height;
    agent = a;
  }

  visit-Gives :
      (now : ℕ) (command : WebVisitEventCommand V)
      → Gives (IsBoundedVisit values now command) (normalize_web_visit_event values now command)
  unfolding normalize_web_visit_event
  visit-Gives now command =
      Gives-bind (normalize_web_visit_core values now command) (core-Gives values now command)
        (λ core core_h.
          Gives-bind (normalize_client_context values command) (client-Gives values command)
            (λ client client_h. returned-Gives _ (
              assembled-IsBoundedVisit now command core client
                (normalize_marketing_context values command)
                (derive_user_agent_context values command.context) core_h client_h
                (marketing-IsBounded values command) (agent-IsBounded values command.context))))

  -- A call either returns one visit and appends it to the table, with the next id: its event type and its path are
  -- allowed, its time is recent, its device is "bot" exactly for the agents taken for bots, and every token, size
  -- and text of it, but for the domain of the referrer, is within its bound. Or it ends in an error and leaves the
  -- table as it was.
  pub record_web_visit_event-IsBounded :
      (now : ℕ) (command : WebVisitEventCommand V) (table : VisitTable)
      → ((event : NormalizedWebVisitEvent) × (record_web_visit_event values now command table).0
            ≡ returned event
          × IsAppended event table (record_web_visit_event values now command table).1
          × IsBoundedVisit values now command event)
        ⊎ (((event : NormalizedWebVisitEvent)
              → (record_web_visit_event values now command table).0 ≢ returned event)
            × (record_web_visit_event values now command table).1 ≡ table)
  unfolding record_web_visit_event
  record_web_visit_event-IsBounded now command table =
      go (normalize_web_visit_event values now command) (visit-Gives now command)
    where
      go :
          (outcome : Outcome NormalizedWebVisitEvent)
          → Gives (IsBoundedVisit values now command) outcome
          → ((event : NormalizedWebVisitEvent) × (stored table outcome).0 ≡ returned event
              × IsAppended event table (stored table outcome).1
              × IsBoundedVisit values now command event)
            ⊎ (((event : NormalizedWebVisitEvent) → (stored table outcome).0 ≢ returned event)
                × (stored table outcome).1 ≡ table)
      go (returned event) h =
          inl (event, refl, insert_web_visit_event-IsAppended event table, h.holds event refl)
      go (raised error) h = inr (λ event e. ground (arith, e), refl)
      go crashed h = inr (λ event e. ground (arith, e), refl)
