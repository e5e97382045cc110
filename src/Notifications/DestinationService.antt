-- ===== src/Notifications/DestinationService.antt =====
-- src/uptime_platform/notifications/destination_service.py, with the requests of schemas.py and
-- their check `validate_config` and the check of a Slack URL. What pydantic checks of another field
-- is taken as done.
pub mod Configs
pub mod Channels
use text.Mathlib.Text.{◌==◌ as str_eq}
use uptime_platform.Base.{
  ℕ, String, Bool, true, false, ◌&&◌, ◌||◌, Option, none, some, if◌then◌else◌, or_else, List,
}
use uptime_platform.Base.Result.{Result, ok, err, ValueError, value_error}
use uptime_platform.Base.Dict.{Dict}
use uptime_platform.Notifications.Entities.{
  NotificationDestination, NotificationDestinationType, NotificationDestinationConfig,
  EmailSecurity,
}
use uptime_platform.Notifications.Destinations
use uptime_platform.Notifications.Slack.{validate_slack_webhook_url}

-- A field of a request with a default of None: left out, or given, with None or a value.
pub data Field (A : Type 0) : Type 0 where
  unset : Field A
  set : Option A → Field A

-- The value of the field, and whether it is in `model_fields_set`.
abbrev pub value : {A : Type 0} → Field A → Option A
value unset = none
value (set x) = x

abbrev pub is_set : {A : Type 0} → Field A → Bool
is_set unset = false
is_set (set x) = true

-- `update.x if "x" in update.model_fields_set else current.x`
abbrev pub set_or : {A : Type 0} → Field A → Option A → Option A
set_or unset current = current
set_or (set x) current = x

-- The four classes …DestinationConfigCreate.
pub data DestinationConfigCreate : Type 0 where
  webhook : (url secret : String) → DestinationConfigCreate
  telegram : (bot_token chat_id : String) → DestinationConfigCreate
  email :
      (host : String) (port : ℕ) (username password : Option String) (from_email to_email : String)
      (security : EmailSecurity)
      → DestinationConfigCreate
  slack : (webhook_url : String) → DestinationConfigCreate

pub record NotificationDestinationCreate : Type 0 where
  pub name : String
  pub destination_type : NotificationDestinationType
  pub enabled : Bool
  pub config : DestinationConfigCreate

-- The four classes …DestinationConfigUpdate.
pub data DestinationConfigUpdate : Type 0 where
  webhook : (url secret : Field String) → DestinationConfigUpdate
  telegram : (bot_token chat_id : Field String) → DestinationConfigUpdate
  email :
      (host : Field String) (port : Field ℕ) (username password from_email to_email : Field String)
      (security : Field EmailSecurity)
      → DestinationConfigUpdate
  slack : (webhook_url : Field String) → DestinationConfigUpdate

pub record NotificationDestinationUpdate : Type 0 where
  pub name : Option String
  pub enabled : Option Bool
  pub config : Option DestinationConfigUpdate

-- The validator of NotificationDestinationCreate.
unfoldable pub validate_config : NotificationDestinationType → DestinationConfigCreate → Bool
validate_config NotificationDestinationType.webhook (DestinationConfigCreate.webhook u s) = true
validate_config NotificationDestinationType.telegram (DestinationConfigCreate.telegram b c) = true
validate_config NotificationDestinationType.email (DestinationConfigCreate.email h p u w f t s) =
    true
validate_config NotificationDestinationType.slack (DestinationConfigCreate.slack u) = true
validate_config destination_type config = false

abbrev pub is_ok : {A : Type 0} → Result ValueError A → Bool
is_ok (ok a) = true
is_ok (err e) = false

-- The validator of SlackDestinationConfigCreate.
unfoldable pub validate_url : DestinationConfigCreate → Bool
validate_url (DestinationConfigCreate.slack u) = is_ok (validate_slack_webhook_url u)
validate_url config = true

-- The validator of SlackDestinationConfigUpdate, which is called for a field that is given.
abbrev given_url : Field String → Bool
given_url unset = true
given_url (set none) = false
given_url (set (some u)) = is_ok (validate_slack_webhook_url u)

unfoldable pub validate_new_url : Option DestinationConfigUpdate → Bool
validate_new_url (some (DestinationConfigUpdate.slack u)) = given_url u
validate_new_url update = true

-- `bool(update.model_fields_set)`
unfoldable pub has_fields : DestinationConfigUpdate → Bool
has_fields (DestinationConfigUpdate.webhook u s) = is_set u || is_set s
has_fields (DestinationConfigUpdate.telegram b c) = is_set b || is_set c
has_fields (DestinationConfigUpdate.email h p u w f t s) =
    is_set h || is_set p || is_set u || is_set w || is_set f || is_set t || is_set s
has_fields (DestinationConfigUpdate.slack u) = is_set u

-- `update or current`, for texts: an empty text is false.
abbrev text_or : Option String → String → String
text_or none current = current
text_or (some text) current = if str_eq text "" then current else text

unfoldable pub create_config : DestinationConfigCreate → NotificationDestinationConfig
create_config (DestinationConfigCreate.webhook u s) =
    NotificationDestinationConfig.webhook (record { url = u; secret = s })
create_config (DestinationConfigCreate.telegram b c) =
    NotificationDestinationConfig.telegram (record { bot_token = b; chat_id = c })
create_config (DestinationConfigCreate.email h p u w f t s) =
    NotificationDestinationConfig.email (record {
      host = h;
      port = p;
      username = u;
      password = w;
      from_email = f;
      to_email = t;
      security = s;
    })
create_config (DestinationConfigCreate.slack u) =
    NotificationDestinationConfig.slack (record { webhook_url = u })

unfoldable pub update_config :
    NotificationDestinationConfig
    → DestinationConfigUpdate
    → Result ValueError NotificationDestinationConfig
update_config (NotificationDestinationConfig.webhook c) (DestinationConfigUpdate.webhook u s) = ok (
    NotificationDestinationConfig.webhook
      (record { url = or_else (value u) c.url; secret = or_else (value s) c.secret }))
update_config (NotificationDestinationConfig.telegram c) (DestinationConfigUpdate.telegram b i) =
    ok (
      NotificationDestinationConfig.telegram (record {
        bot_token = or_else (value b) c.bot_token;
        chat_id = or_else (value i) c.chat_id;
      }))
update_config (NotificationDestinationConfig.email c)
      (DestinationConfigUpdate.email h p u w f t s) =
    ok (
      NotificationDestinationConfig.email (record {
        host = or_else (value h) c.host;
        port = or_else (value p) c.port;
        username = set_or u c.username;
        password = set_or w c.password;
        from_email = or_else (value f) c.from_email;
        to_email = or_else (value t) c.to_email;
        security = or_else (value s) c.security;
      }))
update_config (NotificationDestinationConfig.slack c) (DestinationConfigUpdate.slack u) =
    ok (
      NotificationDestinationConfig.slack
        (record { webhook_url = text_or (value u) c.webhook_url }))
update_config config update = err value_error

unfoldable pub create :
    Dict NotificationDestination
    → (organization_id : ℕ) → NotificationDestinationCreate
    → (uuid4 now : ℕ) → Dict NotificationDestination × NotificationDestination
unfolding create_config
create r organization_id request uuid4 now =
    let destination : NotificationDestination = record {
      id = uuid4;
      organization_id = organization_id;
      name = request.name;
      destination_type = request.destination_type;
      enabled = request.enabled;
      config = create_config request.config;
      created_at = now;
    } in
    (Destinations.create r destination, destination)

-- The route's request: pydantic refuses a body that a validator refuses.
unfoldable pub create_request :
    Dict NotificationDestination
    → (organization_id : ℕ) → NotificationDestinationCreate
    → (uuid4 now : ℕ) → Result ValueError (Dict NotificationDestination × NotificationDestination)
unfolding validate_config validate_url create
create_request r organization_id request uuid4 now =
    if validate_url request.config && validate_config request.destination_type request.config
    then ok (create r organization_id request uuid4 now)
    else err value_error

unfoldable pub get_all : Dict NotificationDestination → ℕ → List NotificationDestination
get_all r organization_id = Destinations.get_all r organization_id

unfoldable pub get_by_id :
    Dict NotificationDestination
    → (organization_id destination_id : ℕ) → Option NotificationDestination
get_by_id r organization_id destination_id = Destinations.get_by_id r destination_id organization_id

-- The configuration after the request.
unfoldable pub new_config :
    NotificationDestinationConfig
    → Option DestinationConfigUpdate
    → Result ValueError NotificationDestinationConfig
unfolding has_fields update_config
new_config config none = ok config
new_config config (some update) =
    if has_fields update then update_config config update else ok config

abbrev pub updated :
    NotificationDestination
    → NotificationDestinationUpdate
    → NotificationDestinationConfig
    → NotificationDestination
updated destination request config = record destination {
  name = or_else request.name destination.name;
  enabled = or_else request.enabled destination.enabled;
  config = config;
}

unfoldable pub update :
    Dict NotificationDestination
    → (organization_id destination_id : ℕ) → NotificationDestinationUpdate
    → Result ValueError (Dict NotificationDestination × Option NotificationDestination)
unfolding new_config
update r organization_id destination_id request =
    elim (Destinations.get_by_id r destination_id organization_id) [
      | none ↦ ok (r, none)
      | some destination ↦ elim (new_config destination.config request.config) [
        | err e ↦ err e
        | ok config ↦ ok (Destinations.update r (updated destination request config))
      ]
    ]

-- The route's request.
unfoldable pub update_request :
    Dict NotificationDestination
    → (organization_id destination_id : ℕ) → NotificationDestinationUpdate
    → Result ValueError (Dict NotificationDestination × Option NotificationDestination)
unfolding validate_new_url update
update_request r organization_id destination_id request =
    if validate_new_url request.config
    then update r organization_id destination_id request
    else err value_error

unfoldable pub delete :
    Dict NotificationDestination
    → (organization_id destination_id : ℕ) → Dict NotificationDestination × Bool
delete r organization_id destination_id = Destinations.delete r destination_id organization_id
