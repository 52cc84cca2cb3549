-- ===== src/Webhook/Adapters.antt =====
-- internal/webhook/adapters.go. Each adapter builds the value that `json.Marshal` encodes; the encoder
-- is a parameter of the clients, and `none` is its error.
use aegis_pulse.Base.{
  ℕ, Bool, true, false, ◌||◌, ◌&&◌, Option, none, some, List, [], ◌∷◌, ◌++◌, map, String,
  if◌then◌else◌, str_eq, ℤ, Dict, Text, codes, text_eq, print_int,
}

pub record UniversalEvent : Type 0 where
  pub event_id : String
  pub event_type : String
  pub api_key : String
  pub tier : String
  pub timestamp : ℤ
  pub title : String
  pub description : String
  pub channel : String
  pub signature : Text
  pub metadata : Dict String

pub record DiscordEmbedField : Type 0 where
  pub name : Text
  pub value : Text
  pub inline : Bool

pub record DiscordEmbed : Type 0 where
  pub title : Text
  pub description : Text
  pub color : ℕ
  pub fields : List DiscordEmbedField
  pub footer : Text

pub record DiscordPayload : Type 0 where
  pub username : Text
  pub avatar_url : Text
  pub embeds : List DiscordEmbed

pub record SlackText : Type 0 where
  pub kind : Text
  pub text : Text

pub record SlackBlock : Type 0 where
  pub kind : Text
  pub text : Option SlackText
  pub fields : List SlackText

pub record SlackPayload : Type 0 where
  pub channel : Text
  pub blocks : List SlackBlock

-- What one of the three adapters hands to the encoder.
pub data Payload : Type 0 where
  generic : UniversalEvent → Payload
  discord : DiscordPayload → Payload
  slack : SlackPayload → Payload

abbrev is_incident : UniversalEvent → Bool
is_incident event =
    str_eq event.event_type "SECURITY_INCIDENT" || str_eq event.event_type "KILL_SWITCH"

unfoldable pub adapt_generic : UniversalEvent → Payload
adapt_generic event = generic event

abbrev discord_field : String → Text → DiscordEmbedField
discord_field name value = record { name = codes name; value = value; inline = true }

abbrev discord_metadata : Dict String → List DiscordEmbedField
discord_metadata = map λ entry. discord_field entry.0 (codes entry.1)

unfoldable pub adapt_discord : UniversalEvent → Payload
adapt_discord event =
    let color : ℕ =
      if is_incident event
      then 0xE74C3C
      else if str_eq event.event_type "BURST_OVERAGE"
      then 0xF39C12
      else 0x3498DB in
    let fields : List DiscordEmbedField =
      discord_field "Event Type" (codes event.event_type)
      ∷ discord_field "Tier" (codes event.tier)
      ∷ discord_field "API Key" (codes event.api_key)
      ∷ discord_field "Timestamp" (print_int event.timestamp)
      ∷ [] in
    let channel : List DiscordEmbedField =
      if str_eq event.channel "" then [] else discord_field "Channel" (codes event.channel) ∷ [] in
    let signature : List DiscordEmbedField =
      if text_eq event.signature []
      then []
      else record (discord_field "Signature" (event.signature)) { inline = false } ∷ [] in
    discord (record {
      username = codes "AegisPulse Security Gate";
      avatar_url = [];
      embeds =
          record {
            title = codes "🚨 AegisPulse Alert: " ++ codes event.title;
            description = codes event.description;
            color = color;
            fields = fields ++ (channel ++ (signature ++ discord_metadata event.metadata));
            footer = codes "AegisPulse Universal Webhook Engine";
          }
          ∷ [];
    })

abbrev markdown : Text → SlackText
markdown text = record { kind = codes "mrkdwn"; text = text }

abbrev slack_metadata : Dict String → List SlackText
slack_metadata =
    map λ entry. markdown (codes "*" ++ codes entry.0 ++ (codes ":*\n" ++ codes entry.1))

unfoldable pub slack_channel : UniversalEvent → String
slack_channel event =
    if str_eq event.channel "" && is_incident event then "#security-incidents" else event.channel

unfoldable pub adapt_slack : UniversalEvent → Payload
unfolding slack_channel
adapt_slack event =
    let channel = slack_channel event in
    let fields : List SlackText =
      markdown (codes "*Event:*\n" ++ codes event.event_type)
      ∷ markdown (codes "*Tier:*\n" ++ codes event.tier)
      ∷ markdown (codes "*API Key:*\n" ++ codes event.api_key)
      ∷ markdown (codes "*Timestamp:*\n" ++ print_int event.timestamp)
      ∷ [] in
    let channel_field : List SlackText =
      if str_eq channel "" then [] else markdown (codes "*Channel:*\n" ++ codes channel) ∷ [] in
    let signature_field : List SlackText =
      if text_eq event.signature []
      then []
      else markdown (codes "*Signature:*\n`" ++ event.signature ++ codes "`") ∷ [] in
    slack (record {
      channel = codes channel;
      blocks =
          record {
            kind = codes "header";
            text = some (record {
              kind = codes "plain_text";
              text = codes "🛡" ++ (0xFE0F ∷ codes " AegisPulse Alert: " ++ codes event.title);
            });
            fields = [];
          }
          ∷ record {
            kind = codes "section";
            text = some (markdown (codes event.description));
            fields = [];
          }
          ∷ record {
            kind = codes "section";
            text = none;
            fields =
                fields ++ (channel_field ++ (signature_field ++ slack_metadata event.metadata));
          }
          ∷ [];
    })

-- The `switch` on the type of a sink.
unfoldable pub adapt : String → UniversalEvent → Payload
adapt sink_type event =
    if str_eq sink_type "discord"
    then adapt_discord event
    else if str_eq sink_type "slack"
    then adapt_slack event
    else adapt_generic event
