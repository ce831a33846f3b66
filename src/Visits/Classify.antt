-- ===== src/Visits/Classify.antt =====
-- What app/services/web_stats_normalizers.py reads from a user agent. `str.lower` is a parameter.
use parcel_explorer.Prelude.{
  Text, codes, String, Bool, false, not, ◌&&◌, ◌||◌, List, [], ◌∷◌, starts_with, if◌then◌else◌,
}

-- needle in text
abbrev pub has_text : Text → Text → Bool
has_text needle [] = starts_with needle []
has_text needle (c ∷ text) = starts_with needle (c ∷ text) || has_text needle text

abbrev pub has : String → Text → Bool
has needle text = has_text (codes needle) text

abbrev pub any_in : List String → Text → Bool
any_in [] text = false
any_in (pattern ∷ patterns) text = has pattern text || any_in patterns text

abbrev pub bot_ua_patterns : List String
bot_ua_patterns =
    "bot" ∷ "spider" ∷ "crawler" ∷ "curl" ∷ "wget" ∷ "python-requests" ∷ "httpclient" ∷ []

module _ (lower : Text → Text) where
  unfoldable pub is_bot_user_agent : Text → Bool
  is_bot_user_agent user_agent = any_in bot_ua_patterns (lower user_agent)

  unfoldable pub classify_browser_family : Text → String
  classify_browser_family user_agent =
      let ua = lower user_agent in
      if has "edg/" ua || has "edge/" ua
      then "edge"
      else if has "opr/" ua || has "opera" ua
      then "other"
      else if has "chrome/" ua && not (has "chromium" ua) && not (has "edg/" ua)
      then "chrome"
      else if has "safari/" ua && not (has "chrome/" ua) && not (has "chromium" ua)
      then "safari"
      else if has "firefox/" ua
      then "firefox"
      else if has "trident/" ua || has "msie" ua
      then "ie"
      else "other"

  abbrev pub if_empty : Text → String
  if_empty [] = "unknown"
  if_empty (c ∷ text) = "desktop"

  unfoldable pub classify_device_type : Text → Bool → String
  classify_device_type user_agent is_bot =
      let ua = lower user_agent in
      if is_bot
      then "bot"
      else if has "tablet" ua || has "ipad" ua
      then "tablet"
      else if has "mobile" ua || has "iphone" ua || has "android" ua
      then "mobile"
      else if_empty ua

  unfoldable pub classify_os_family : Text → String
  classify_os_family user_agent =
      let ua = lower user_agent in
      if has "windows" ua
      then "windows"
      else if has "mac os" ua || has "macintosh" ua
      then "macos"
      else if has "iphone" ua || has "ipad" ua || has "ios" ua
      then "ios"
      else if has "android" ua
      then "android"
      else if has "linux" ua
      then "linux"
      else "other"
