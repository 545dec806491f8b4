-- ===== src/Heartbeat/Presence/Served.antt =====
-- How the loop around the heartbeat ends.
use unifi_stubd.Prelude.{
  ℕ, length, some, ◌+◌, ◌%◌, ◌^◌, ◌≡◌, ◌⊎◌, ◌∙◌, refl, ap, List, [], ◌∷◌, Option, Result, ok, err,
  Bool, true,
}
use unifi_stubd.Prelude.Int.{ℤ, pos, ◌≤ℤ◌, ◌<ℤ◌}
use unifi_stubd.Prelude.Text.{Bytes, is_empty}
use unifi_stubd.Discovery.{Announcement, MarshalError, marshal_binary}
use unifi_stubd.Inform.Schedule.{ScheduleConfig}
use unifi_stubd.Inform.Schedule.History.{longest}
use unifi_stubd.Adoption.Validate.{Url}
use unifi_stubd.Adoption.Store.{Store}
use unifi_stubd.Adoption.Env.{SaveError, LoadError}
use unifi_stubd.Adoption.Json.{Json}
use unifi_stubd.Adoption.Update.Agreement.{Agrees}
use unifi_stubd.Heartbeat.{Daemon}
use unifi_stubd.Heartbeat.Presence.{PresenceError, Round, heartbeat, announced, next_sequence}

-- A delay is positive and at most the longest of the configuration.
abbrev pub IsWait : ScheduleConfig → ℤ → Type 0
IsWait config delay = (pos 0 <ℤ delay) × (delay ≤ℤ longest config)

abbrev pub AllWaits : ScheduleConfig → List ℤ → Type 0
AllWaits config [] = Unit
AllWaits config (delay ∷ delays) = IsWait config delay × AllWaits config delays

-- Some round has the mark.
abbrev pub AnyRound : (Round → Bool) → List Round → Type 0
AnyRound mark [] = ⊥
AnyRound mark (r ∷ rs) = (mark r ≡ true) ⊎ AnyRound mark rs

-- The announcement of the same device at another time.
pub record Renewed (a x : Announcement) : Type 0 where
  pub is_default : Bool
  pub uptime : ℕ
  pub sequence : ℕ
  pub same_device : x ≡ record a { is_default = is_default; uptime = uptime; sequence = sequence }

module _ (config : ScheduleConfig) (parse_url : Bytes → Option Url) (json : Json)
    (controller : Bytes) where
  -- The heartbeat of some round returns the error from some state.
  abbrev pub AnyFailed : SaveError → List Round → Type 0
  AnyFailed e [] = ⊥
  AnyFailed e (r ∷ rs) =
      ((d : Daemon) × (s : Store) × ((heartbeat parse_url json controller r d s).error ≡ some e))
      ⊎ AnyFailed e rs

  -- The loop ends with an error of the operating system in a round that has one, with an announcement
  -- of the device that cannot be encoded, with an error of a payload in a round that has one or with
  -- the error of the heartbeat of a round, or it waits after each round, all its waits are bounded and
  -- the adoption file holds a store.
  pub data Served (a : Announcement) (rs : List Round)
      : Result PresenceError (Daemon × List ℤ) → Type 0 where
    unreadable :
        AnyRound (λ r. r.read_fails) rs
        → Served a rs (err (PresenceError.load_failed LoadError.read_failed))
    unannounced :
        (x : Announcement) (e : MarshalError)
        → Renewed a x
        → marshal_binary x ≡ err e
        → Served a rs (err (PresenceError.announcement_failed e))
    no_payload : AnyRound (λ r. r.payload_fails) rs → Served a rs (err PresenceError.payload_failed)
    stopped :
        (e : SaveError) → AnyFailed e rs → Served a rs (err (PresenceError.heartbeat_failed e))
    running :
        (d : Daemon) (delays : List ℤ) (s : Store)
        → length delays ≡ length rs
        → AllWaits config delays
        → Agrees parse_url s d.disk
        → Served a rs (ok (d, delays))

pub Renewed-trans : (a x y : Announcement) → Renewed a x → Renewed x y → Renewed a y
Renewed-trans a x y n m = record {
  is_default = m.is_default;
  uptime = m.uptime;
  sequence = m.sequence;
  same_device =
      m.same_device
      ∙ ap
          (λ (z : Announcement). record z {
            is_default = m.is_default;
            uptime = m.uptime;
            sequence = m.sequence;
          })
          n.same_device;
}

pub Renewed-announced : (a : Announcement) (r : Round) (s : Store) → Renewed a (announced a r s)
Renewed-announced a r s = record {
  is_default = is_empty s.auth_key;
  uptime = r.uptime % 2 ^ 32;
  sequence = a.sequence;
  same_device = refl;
}

pub Renewed-next_sequence :
    (a : Announcement) (r : Round) (s : Store) → Renewed a (next_sequence (announced a r s))
Renewed-next_sequence a r s = record {
  is_default = is_empty s.auth_key;
  uptime = r.uptime % 2 ^ 32;
  sequence = (a.sequence + 1) % 2 ^ 32;
  same_device = refl;
}
