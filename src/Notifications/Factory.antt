-- ===== src/Notifications/Factory.antt =====
-- src/uptime_platform/notifications/factory.py: the channel of a destination, as the class and the
-- arguments that it is built with, after its constructor's check. The HTTP client is left out of the arguments, and the
-- timeout is a duration.
use uptime_platform.Base.{ℕ, String}
use uptime_platform.Base.Result.{Result, ok, err, ValueError}
use uptime_platform.Notifications.Slack.{validate_slack_webhook_url}
use uptime_platform.Notifications.Entities.{
  NotificationDestination, NotificationDestinationType, NotificationDestinationConfig,
  WebhookDestinationConfig, TelegramDestinationConfig, SlackDestinationConfig,
  EmailDestinationConfig,
}

pub data NotificationChannel : Type 0 where
  webhook_channel :
      WebhookDestinationConfig → (timeout : ℕ) (public_app_url : String) → NotificationChannel
  telegram_channel :
      TelegramDestinationConfig → (timeout : ℕ) (public_app_url : String) → NotificationChannel
  email_channel :
      EmailDestinationConfig → (timeout : ℕ) (public_app_url : String) → NotificationChannel
  slack_channel :
      SlackDestinationConfig → (timeout : ℕ) (public_app_url : String) → NotificationChannel

-- The TypeError `… destination has invalid config`, and the ValueError of SlackNotificationChannel's
-- constructor.
pub data ChannelError : Type 0 where
  invalid_config : NotificationDestinationType → ChannelError
  invalid_url : ChannelError

-- SlackNotificationChannel(…)
abbrev pub slack_channel_of :
    SlackDestinationConfig
    → (timeout : ℕ) (public_app_url : String) → Result ValueError String
    → Result ChannelError NotificationChannel
slack_channel_of c t url (ok webhook_url) = ok (slack_channel c t url)
slack_channel_of c t url (err e) = err invalid_url

unfoldable pub channel_of :
    NotificationDestinationType
    → NotificationDestinationConfig
    → (timeout : ℕ) (public_app_url : String) → Result ChannelError NotificationChannel
channel_of NotificationDestinationType.webhook (NotificationDestinationConfig.webhook c) t url =
    ok (webhook_channel c t url)
channel_of NotificationDestinationType.telegram (NotificationDestinationConfig.telegram c) t url =
    ok (telegram_channel c t url)
channel_of NotificationDestinationType.email (NotificationDestinationConfig.email c) t url =
    ok (email_channel c t url)
channel_of NotificationDestinationType.slack (NotificationDestinationConfig.slack c) t url =
    slack_channel_of c t url (validate_slack_webhook_url c.webhook_url)
channel_of destination_type config t url = err (invalid_config destination_type)

unfoldable pub create_notification_channel :
    NotificationDestination
    → (timeout : ℕ) (public_app_url : String) → Result ChannelError NotificationChannel
unfolding channel_of
create_notification_channel destination timeout public_app_url =
    channel_of destination.destination_type destination.config timeout public_app_url
