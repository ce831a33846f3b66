-- ===== src/Visits/Record.antt =====
-- app/services/web_stats_ingest.py, `build_web_visit_event_command` of app/services/public_event_commands.py and the
-- table of app/repositories/web_visit_write_repository.py, whose rows stand in the order of their ids.
use parcel_explorer.Prelude.{
  ℕ, ◌+◌, Text, String, Bool, Option, none, some, List, [], ◌∷◌, ◌++◌, take,
}
use parcel_explorer.Events.Normalize.{Outcome, returned, raised, crashed, non_empty}
use parcel_explorer.Visits.Classify.{
  is_bot_user_agent, classify_browser_family, classify_device_type, classify_os_family,
}
use parcel_explorer.Visits.Normalize.{
  WebValues, ◌>>=◌, normalize_event_type, normalize_required_token, normalize_optional_string,
  normalize_optional_int, normalize_page_path, normalize_query_string, normalize_referrer_url,
  normalize_referrer_domain, parse_client_ts,
}

pub record WebVisitContext : Type 0 where
  pub user_agent : Option Text
  pub allowed_web_track_paths : List Text

pub record WebVisitEventCommand (V : Type 0) : Type 0 where
  pub context : WebVisitContext
  pub event_type : Option V
  pub anon_id : Option V
  pub session_id : Option V
  pub page_path : Option V
  pub page_query : Option V
  pub client_ts : Option V
  pub client_tz : Option V
  pub client_lang : Option V
  pub platform : Option V
  pub referrer_url : Option V
  pub referrer_domain : Option V
  pub utm_source : Option V
  pub utm_medium : Option V
  pub utm_campaign : Option V
  pub utm_term : Option V
  pub utm_content : Option V
  pub screen_width : Option V
  pub screen_height : Option V
  pub viewport_width : Option V
  pub viewport_height : Option V

pub record NormalizedWebVisitCore : Type 0 where
  pub anon_id : Text
  pub session_id : Text
  pub event_type : Text
  pub page_path : Text
  pub page_query : Option Text
  pub occurred_at : Text

pub record ClientContext : Type 0 where
  pub client_tz : Option Text
  pub client_lang : Option Text
  pub platform : Option Text
  pub screen_width : Option ℕ
  pub screen_height : Option ℕ
  pub viewport_width : Option ℕ
  pub viewport_height : Option ℕ

pub record MarketingContext : Type 0 where
  pub referrer_url : Option Text
  pub referrer_domain : Option Text
  pub utm_source : Option Text
  pub utm_medium : Option Text
  pub utm_campaign : Option Text
  pub utm_term : Option Text
  pub utm_content : Option Text

pub record UserAgentContext : Type 0 where
  pub user_agent : Option Text
  pub is_bot : Bool
  pub browser_family : String
  pub device_type : String
  pub os_family : String

pub record NormalizedWebVisitEvent : Type 0 where
  pub anon_id : Text
  pub session_id : Text
  pub event_type : Text
  pub page_path : Text
  pub page_query : Option Text
  pub occurred_at : Text
  pub client_tz : Option Text
  pub client_lang : Option Text
  pub platform : Option Text
  pub referrer_url : Option Text
  pub referrer_domain : Option Text
  pub utm_source : Option Text
  pub utm_medium : Option Text
  pub utm_campaign : Option Text
  pub utm_term : Option Text
  pub utm_content : Option Text
  pub screen_width : Option ℕ
  pub screen_height : Option ℕ
  pub viewport_width : Option ℕ
  pub viewport_height : Option ℕ
  pub user_agent : UserAgentContext

-- payload.get(name)
unfoldable pub build_web_visit_event_command :
    {V : Type 0} → (String → Option V) → WebVisitContext → WebVisitEventCommand V
build_web_visit_event_command get context = record {
  context = context;
  event_type = get "eventType";
  anon_id = get "anonId";
  session_id = get "sessionId";
  page_path = get "pagePath";
  page_query = get "pageQuery";
  client_ts = get "clientTs";
  client_tz = get "clientTz";
  client_lang = get "clientLang";
  platform = get "platform";
  referrer_url = get "referrerUrl";
  referrer_domain = get "referrerDomain";
  utm_source = get "utmSource";
  utm_medium = get "utmMedium";
  utm_campaign = get "utmCampaign";
  utm_term = get "utmTerm";
  utm_content = get "utmContent";
  screen_width = get "screenWidth";
  screen_height = get "screenHeight";
  viewport_width = get "viewportWidth";
  viewport_height = get "viewportHeight";
}

abbrev pub assemble_normalized_web_visit_event :
    NormalizedWebVisitCore
    → ClientContext
    → MarketingContext
    → UserAgentContext
    → NormalizedWebVisitEvent
assemble_normalized_web_visit_event core client marketing agent = record {
  anon_id = core.anon_id;
  session_id = core.session_id;
  event_type = core.event_type;
  page_path = core.page_path;
  page_query = core.page_query;
  occurred_at = core.occurred_at;
  client_tz = client.client_tz;
  client_lang = client.client_lang;
  platform = client.platform;
  referrer_url = marketing.referrer_url;
  referrer_domain = marketing.referrer_domain;
  utm_source = marketing.utm_source;
  utm_medium = marketing.utm_medium;
  utm_campaign = marketing.utm_campaign;
  utm_term = marketing.utm_term;
  utm_content = marketing.utm_content;
  screen_width = client.screen_width;
  screen_height = client.screen_height;
  viewport_width = client.viewport_width;
  viewport_height = client.viewport_height;
  user_agent = agent;
}

module _ {V : Type 0} (values : WebValues V) where
  -- `now` is what the clock says where `parse_client_ts` reads it
  unfoldable pub normalize_web_visit_core :
      ℕ → WebVisitEventCommand V → Outcome NormalizedWebVisitCore
  normalize_web_visit_core now command = do
    anon ← normalize_required_token values command.anon_id "anonId is required."
    session ← normalize_required_token values command.session_id "sessionId is required."
    type ← normalize_event_type values command.event_type
    path ← normalize_page_path values command.page_path command.context.allowed_web_track_paths
    occurred ← parse_client_ts values now command.client_ts
    returned record {
      anon_id = anon;
      session_id = session;
      event_type = type;
      page_path = path;
      page_query = normalize_query_string values command.page_query 1024;
      occurred_at = occurred;
    }

  unfoldable pub normalize_client_context : WebVisitEventCommand V → Outcome ClientContext
  normalize_client_context command = do
    width ← normalize_optional_int values command.screen_width 20000
    height ← normalize_optional_int values command.screen_height 20000
    view_width ← normalize_optional_int values command.viewport_width 20000
    view_height ← normalize_optional_int values command.viewport_height 20000
    returned record {
      client_tz = normalize_optional_string values command.client_tz 64;
      client_lang = normalize_optional_string values command.client_lang 64;
      platform = normalize_optional_string values command.platform 64;
      screen_width = width;
      screen_height = height;
      viewport_width = view_width;
      viewport_height = view_height;
    }

  unfoldable pub normalize_marketing_context : WebVisitEventCommand V → MarketingContext
  normalize_marketing_context command =
      let url = normalize_referrer_url values command.referrer_url in
      record {
        referrer_url = url;
        referrer_domain = normalize_referrer_domain values command.referrer_domain url;
        utm_source = normalize_optional_string values command.utm_source 256;
        utm_medium = normalize_optional_string values command.utm_medium 256;
        utm_campaign = normalize_optional_string values command.utm_campaign 256;
        utm_term = normalize_optional_string values command.utm_term 256;
        utm_content = normalize_optional_string values command.utm_content 256;
      }

  -- (text or "")[:500]
  abbrev pub agent_text : Option Text → Text
  agent_text none = []
  agent_text (some text) = take 500 text

  unfoldable pub derive_user_agent_context : WebVisitContext → UserAgentContext
  derive_user_agent_context context =
      let agent = agent_text context.user_agent in
      let bot = is_bot_user_agent values.lower agent in
      record {
        user_agent = non_empty agent;
        is_bot = bot;
        browser_family = classify_browser_family values.lower agent;
        device_type = classify_device_type values.lower agent bot;
        os_family = classify_os_family values.lower agent;
      }

  unfoldable pub normalize_web_visit_event :
      ℕ → WebVisitEventCommand V → Outcome NormalizedWebVisitEvent
  normalize_web_visit_event now command = do
    core ← normalize_web_visit_core now command
    client ← normalize_client_context command
    returned (
        assemble_normalized_web_visit_event core client (normalize_marketing_context command)
          (derive_user_agent_context command.context))

-- the rows with their ids, and the id that AUTOINCREMENT gives next
pub record VisitTable : Type 0 where
  pub rows : List (ℕ × NormalizedWebVisitEvent)
  pub next_id : ℕ

unfoldable pub insert_web_visit_event : NormalizedWebVisitEvent → VisitTable → VisitTable
insert_web_visit_event event table = record {
  rows = table.rows ++ (table.next_id, event) ∷ [];
  next_id = table.next_id + 1;
}

-- the table after the call, and how the call ended
abbrev pub stored :
    VisitTable → Outcome NormalizedWebVisitEvent → Outcome NormalizedWebVisitEvent × VisitTable
stored table (returned event) = (returned event, insert_web_visit_event event table)
stored table (raised error) = (raised error, table)
stored table crashed = (crashed, table)

unfoldable pub record_web_visit_event :
    {V : Type 0}
    → WebValues V
    → ℕ
    → WebVisitEventCommand V
    → VisitTable
    → Outcome NormalizedWebVisitEvent × VisitTable
record_web_visit_event values now command table =
    stored table (normalize_web_visit_event values now command)
