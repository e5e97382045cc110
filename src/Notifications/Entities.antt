-- ===== src/Notifications/Entities.antt =====
-- src/uptime_platform/notifications/entities.py.
use uptime_platform.Base.{ℕ, String, Bool, Option}

pub data NotificationDestinationType : Type 0 where
  webhook telegram email slack : NotificationDestinationType

pub data EmailSecurity : Type 0 where
  unsecured starttls tls : EmailSecurity

pub record WebhookDestinationConfig : Type 0 where
  pub url : String
  pub secret : String

pub record TelegramDestinationConfig : Type 0 where
  pub bot_token : String
  pub chat_id : String

pub record SlackDestinationConfig : Type 0 where
  pub webhook_url : String

pub record EmailDestinationConfig : Type 0 where
  pub host : String
  pub port : ℕ
  pub username : Option String
  pub password : Option String
  pub from_email : String
  pub to_email : String
  pub security : EmailSecurity

pub data NotificationDestinationConfig : Type 0 where
  webhook : WebhookDestinationConfig → NotificationDestinationConfig
  telegram : TelegramDestinationConfig → NotificationDestinationConfig
  email : EmailDestinationConfig → NotificationDestinationConfig
  slack : SlackDestinationConfig → NotificationDestinationConfig

pub record NotificationDestination : Type 0 where
  pub id : ℕ
  pub organization_id : ℕ
  pub name : String
  pub destination_type : NotificationDestinationType
  pub enabled : Bool
  pub config : NotificationDestinationConfig
  pub created_at : ℕ

pub record NotificationDelivery : Type 0 where
  pub id : ℕ
  pub event_id : ℕ
  pub destination_id : ℕ
  pub created_at : ℕ
  pub processed_at : Option ℕ
  pub attempts : ℕ
  pub last_error : Option String
  pub next_attempt_at : ℕ
  pub locked_until : Option ℕ
  pub lease_token : Option ℕ
