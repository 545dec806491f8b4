-- ===== src/Heartbeat/Presence.antt =====
-- cmd/unifi-stubd/serve_presence.go: the loop of maintainControllerPresence around the heartbeat.
pub mod Served
pub mod Bounded
use unifi_stubd.Prelude.{
  ℕ, ◌+◌, ◌%◌, ◌^◌, Bool, true, false, List, [], ◌∷◌, Option, none, some, Result, ok, err,
  if◌then◌else◌,
}
use unifi_stubd.Prelude.Int.{ℤ}
use unifi_stubd.Prelude.Text.{Bytes, is_empty}
use unifi_stubd.Adoption.Validate.{Url}
use unifi_stubd.Adoption.Store.{Store}
use unifi_stubd.Adoption.Env.{LoadError, SaveError, Reading, reading}
use unifi_stubd.Discovery.{Announcement, MarshalError, marshal_binary}
use unifi_stubd.Adoption.Json.{Json}
use unifi_stubd.Adoption.Update.{load_adoption_state, effective_inform_url}
use unifi_stubd.Heartbeat.{Beat, Daemon, Exchange, Setting, send_inform_heartbeat}

pub data PresenceError : Type 0 where
  load_failed : LoadError → PresenceError
  announcement_failed : MarshalError → PresenceError
  payload_failed : PresenceError
  heartbeat_failed : SaveError → PresenceError

-- What one round of the loop meets: an error of the operating system while it reads the adoption file,
-- the seconds since the start, an error of `payloadForIdentity`, and what the heartbeat meets.
pub record Round : Type 0 where
  pub read_fails : Bool
  pub uptime : ℕ
  pub payload_fails : Bool
  pub setting : Setting
  pub exchange : Exchange

-- The reading of the adoption file in a round.
abbrev pub read_file : Round → Daemon → Reading
read_file r d = if r.read_fails then Reading.unreadable else reading d.disk.target

-- The announcement of a round.
abbrev pub announced : Announcement → Round → Store → Announcement
announced a r s = record a { is_default = is_empty s.auth_key; uptime = r.uptime % 2 ^ 32 }

-- `ann.Sequence++`.
abbrev pub next_sequence : Announcement → Announcement
next_sequence a = record a { sequence = (a.sequence + 1) % 2 ^ 32 }

-- The wait of a round, before those of the rounds that follow.
abbrev pub waited :
    ℤ → Result PresenceError (Daemon × List ℤ) → Result PresenceError (Daemon × List ℤ)
waited delay (err e) = err e
waited delay (ok (d, delays)) = ok (d, delay ∷ delays)

abbrev pub unless_failed :
    Option SaveError
    → Result PresenceError (Daemon × List ℤ)
    → Result PresenceError (Daemon × List ℤ)
unless_failed (some e) rest = err (PresenceError.heartbeat_failed e)
unless_failed none rest = rest

-- The end of a round without a packet or without a payload.
abbrev pub if_announced :
    Result MarshalError Bytes
    → Result PresenceError (Daemon × List ℤ)
    → Result PresenceError (Daemon × List ℤ)
if_announced (err e) rest = err (PresenceError.announcement_failed e)
if_announced (ok packet) rest = rest

abbrev pub if_payload :
    Bool → Result PresenceError (Daemon × List ℤ) → Result PresenceError (Daemon × List ℤ)
if_payload true rest = err PresenceError.payload_failed
if_payload false rest = rest

module _ (parse_url : Bytes → Option Url) (json : Json) (controller : Bytes) where
  -- The heartbeat of a round, with the store that was loaded.
  abbrev pub heartbeat : Round → Daemon → Store → Beat
  heartbeat r d s =
      send_inform_heartbeat parse_url json r.setting (effective_inform_url controller s) s
        r.exchange d

  -- `maintainControllerPresence` over the rounds until the daemon is stopped or has run its one round,
  -- with the delays that it waits for, or would wait for after its last round.
  unfoldable pub maintain :
      Announcement → Daemon → List Round → Result PresenceError (Daemon × List ℤ)
  maintain a d [] = ok (d, [])
  maintain a d (r ∷ rs) = elim (load_adoption_state parse_url (read_file r d)) [
    | err e ↦ err (PresenceError.load_failed e)
    | ok s ↦
        let current = announced a r s in
        let b = heartbeat r d s in
        if_announced (marshal_binary current) (
          if_payload r.payload_fails (
            unless_failed b.error
              (waited b.decision.next_delay (maintain (next_sequence current) b.daemon rs))))
  ]
