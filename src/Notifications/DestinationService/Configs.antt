-- ===== src/Notifications/DestinationService/Configs.antt =====
-- About the configurations of src/uptime_platform/notifications/destination_service.py as
-- notifications/factory.py meets them.
use mathlib.Core.Path.{subst}
use uptime_platform.Base.{
  Bool, false, if◌then◌else◌, true, ℕ, String, ◌≡◌, ◌≢◌, refl, ap, Bool-cases, inl, inr, Option,
  none, some, arith,
}
use uptime_platform.Base.Result.{Result, ok, err, ValueError, value_error}
use uptime_platform.Notifications.Entities.{
  NotificationDestination, NotificationDestinationType, NotificationDestinationConfig,
}
use uptime_platform.Notifications.Slack.{validate_slack_webhook_url}
use text.Mathlib.Text.{◌==◌ as str_eq}
use uptime_platform.Notifications.Factory.{
  NotificationChannel, slack_channel, slack_channel_of, channel_of, create_notification_channel,
}
use uptime_platform.Notifications.DestinationService.{
  DestinationConfigCreate, DestinationConfigUpdate, validate_config, create_config, update_config,
  new_config, is_ok, has_fields, validate_url, validate_new_url, unset, set,
}

-- The type of destination that a configuration is for.
abbrev pub config_type : NotificationDestinationConfig → NotificationDestinationType
config_type (NotificationDestinationConfig.webhook _) = NotificationDestinationType.webhook
config_type (NotificationDestinationConfig.telegram _) = NotificationDestinationType.telegram
config_type (NotificationDestinationConfig.email _) = NotificationDestinationType.email
config_type (NotificationDestinationConfig.slack _) = NotificationDestinationType.slack

abbrev pub IsTyped : NotificationDestination → Type 0
IsTyped d = config_type d.config ≡ d.destination_type

-- The check of a Slack URL has passed.
abbrev pub IsAccepted : NotificationDestinationConfig → Type 0
IsAccepted (NotificationDestinationConfig.slack c) =
    validate_slack_webhook_url c.webhook_url ≡ ok c.webhook_url
IsAccepted config = Unit

abbrev pub IsUsable : NotificationDestination → Type 0
IsUsable d = IsTyped d × IsAccepted d.config

-- The factory gives the destination a channel, with any timeout and URL.
abbrev pub HasChannel : NotificationDestination → Type 0
HasChannel d =
    (timeout : ℕ) (public_app_url : String)
    → (channel : NotificationChannel) × (create_notification_channel d timeout public_app_url
        ≡ ok channel)

pub create_config-type :
    (type : NotificationDestinationType) (config : DestinationConfigCreate)
    → validate_config type config ≡ true
    → config_type (create_config config) ≡ type
unfolding validate_config create_config
create_config-type NotificationDestinationType.webhook (DestinationConfigCreate.webhook u s) h =
    refl
create_config-type NotificationDestinationType.telegram (DestinationConfigCreate.telegram b c) h =
    refl
create_config-type NotificationDestinationType.email (DestinationConfigCreate.email a p u w f t s)
      h =
    refl
create_config-type NotificationDestinationType.slack (DestinationConfigCreate.slack u) h = refl
create_config-type type config h = ground arith

update_config-type :
    (config : NotificationDestinationConfig) (request : DestinationConfigUpdate)
    (config' : NotificationDestinationConfig)
    → update_config config request ≡ ok config'
    → config_type config' ≡ config_type config
unfolding update_config
update_config-type (NotificationDestinationConfig.webhook c) request config' h = ground arith
update_config-type (NotificationDestinationConfig.telegram c) request config' h = ground arith
update_config-type (NotificationDestinationConfig.email c) request config' h = ground arith
update_config-type (NotificationDestinationConfig.slack c) request config' h = ground arith

pub new_config-type :
    (config : NotificationDestinationConfig) (request : Option DestinationConfigUpdate)
    (config' : NotificationDestinationConfig)
    → new_config config request ≡ ok config'
    → config_type config' ≡ config_type config
unfolding new_config
new_config-type config none config' h = ground arith
new_config-type config (some u) config' h = ground (arith, update_config-type config u config')

ok_of :
    (refused : Bool) (url : String)
    → is_ok (if refused then err value_error else ok url) ≡ true
    → ◌≡◌ {A = Result ValueError String} (if refused then err value_error else ok url) (ok url)
ok_of true url h = cc
ok_of false url h = refl

-- The validator gives back what it accepts.
accepted_url :
    (url : String)
    → is_ok (validate_slack_webhook_url url) ≡ true
    → validate_slack_webhook_url url ≡ ok url
unfolding validate_slack_webhook_url
accepted_url url h = ok_of _ url h

pub create_config-IsAccepted :
    (config : DestinationConfigCreate)
    → validate_url config ≡ true
    → IsAccepted (create_config config)
unfolding validate_url create_config
create_config-IsAccepted (DestinationConfigCreate.webhook u s) h = tt
create_config-IsAccepted (DestinationConfigCreate.telegram b c) h = tt
create_config-IsAccepted (DestinationConfigCreate.email a p u w f t s) h = tt
create_config-IsAccepted (DestinationConfigCreate.slack u) h = accepted_url u h

not_slack-IsAccepted :
    (config : NotificationDestinationConfig)
    → config_type config ≢ NotificationDestinationType.slack
    → IsAccepted config
not_slack-IsAccepted (NotificationDestinationConfig.webhook c) h = tt
not_slack-IsAccepted (NotificationDestinationConfig.telegram c) h = tt
not_slack-IsAccepted (NotificationDestinationConfig.email c) h = tt
not_slack-IsAccepted (NotificationDestinationConfig.slack c) h = absurd (h refl)

ok_same :
    {a b : NotificationDestinationConfig}
    → ◌≡◌ {A = Result ValueError NotificationDestinationConfig} (ok a) (ok b)
    → a ≡ b
ok_same h = cc

abbrev slack_at : String → NotificationDestinationConfig
slack_at url = NotificationDestinationConfig.slack (record { webhook_url = url })

slack-IsAccepted :
    (current : String) (request : Option DestinationConfigUpdate)
    (config' : NotificationDestinationConfig)
    → validate_slack_webhook_url current ≡ ok current
    → validate_new_url request ≡ true
    → new_config (slack_at current) request ≡ ok config'
    → IsAccepted config'
unfolding new_config has_fields update_config validate_new_url
slack-IsAccepted current none config' accepted h e = subst IsAccepted (ok_same e) accepted
slack-IsAccepted current (some (DestinationConfigUpdate.slack unset)) config' accepted h e =
    subst IsAccepted (ok_same e) accepted
slack-IsAccepted current (some (DestinationConfigUpdate.slack (set none))) config' accepted h e = cc
slack-IsAccepted current (some (DestinationConfigUpdate.slack (set (some u)))) config' accepted h
      e =
    elim (Bool-cases (str_eq u "")) [
      | inl t ↦ subst IsAccepted (ok_same (rw t at e)) accepted
      | inr f ↦ subst IsAccepted (ok_same (rw f at e)) (accepted_url u h)
    ]
slack-IsAccepted current (some request) config' accepted h e =
    let same : slack_at current ≡ config' = ground arith in subst IsAccepted same accepted

pub new_config-IsAccepted :
    (config : NotificationDestinationConfig) (request : Option DestinationConfigUpdate)
    (config' : NotificationDestinationConfig)
    → IsAccepted config
    → validate_new_url request ≡ true
    → new_config config request ≡ ok config'
    → IsAccepted config'
new_config-IsAccepted (NotificationDestinationConfig.slack c) request config' accepted h e =
    slack-IsAccepted c.webhook_url request config' accepted h e
new_config-IsAccepted (NotificationDestinationConfig.webhook c) request config' accepted h e =
    not_slack-IsAccepted config'
      λ s. cc (new_config-type (NotificationDestinationConfig.webhook c) request config' e, s)
new_config-IsAccepted (NotificationDestinationConfig.telegram c) request config' accepted h e =
    not_slack-IsAccepted config'
      λ s. cc (new_config-type (NotificationDestinationConfig.telegram c) request config' e, s)
new_config-IsAccepted (NotificationDestinationConfig.email c) request config' accepted h e =
    not_slack-IsAccepted config'
      λ s. cc (new_config-type (NotificationDestinationConfig.email c) request config' e, s)

config_type-channel :
    (config : NotificationDestinationConfig)
    → IsAccepted config
    → (timeout : ℕ) (public_app_url : String)
    → (channel : NotificationChannel) × (channel_of
          (config_type config)
          config
          timeout
          public_app_url
        ≡ ok channel)
unfolding channel_of
config_type-channel (NotificationDestinationConfig.webhook c) h t url = (_, refl)
config_type-channel (NotificationDestinationConfig.telegram c) h t url = (_, refl)
config_type-channel (NotificationDestinationConfig.email c) h t url = (_, refl)
config_type-channel (NotificationDestinationConfig.slack c) h t url =
    (slack_channel c t url, ap (slack_channel_of c t url) h)

pub IsUsable-HasChannel : (d : NotificationDestination) → IsUsable d → HasChannel d
unfolding create_notification_channel
IsUsable-HasChannel d (typed, accepted) t url =
    subst (λ type. (channel : NotificationChannel) × (channel_of type d.config t url ≡ ok channel))
      typed (config_type-channel d.config accepted t url)
