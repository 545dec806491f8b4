-- ===== src/Heartbeat/Presence/Bounded.antt =====
-- The loop around the heartbeat keeps its file readable and its waits bounded.
use mathlib.Core.Path.{subst}
use unifi_stubd.Prelude.{
  suc, ◌≡◌, ◌∙◌, refl, ap, inl, inr, List, [], ◌∷◌, Option, Result, ok, err, Bool, true, false,
  Bool-cases,
}
use unifi_stubd.Prelude.Int.{ℤ, ◌≤ℤ◌, max_int64}
use unifi_stubd.Prelude.Text.{Bytes}
use unifi_stubd.Discovery.{Announcement, MarshalError, marshal_binary}
use unifi_stubd.Inform.Schedule.{
  ScheduleConfig, Schedule, ScheduleDecision, current, decision, new_schedule,
}
use unifi_stubd.Inform.Schedule.History.{
  Event, on_event, IsReady, longest, on_event-IsReady, on_event-config, delay_bounds, delay_of,
  new_schedule-IsReady,
}
use unifi_stubd.Adoption.Validate.{Url}
use unifi_stubd.Adoption.Store.{Store}
use unifi_stubd.Adoption.Env.{LoadError, load_env}
use unifi_stubd.Adoption.Json.{Json}
use unifi_stubd.Adoption.Update.{effective_inform_url, load_adoption_state}
use unifi_stubd.Adoption.Update.Agreement.{Agrees}
use unifi_stubd.Heartbeat.{Daemon}
use unifi_stubd.Heartbeat.Refines.{Steps, send_inform_heartbeat-Refines}
use unifi_stubd.Heartbeat.Presence.{
  PresenceError, Round, waited, heartbeat, maintain, read_file, announced, next_sequence,
  if_announced, if_payload,
}
use unifi_stubd.Heartbeat.Presence.Served.{
  IsWait, Renewed, Served, Renewed-trans, Renewed-announced, Renewed-next_sequence,
}

load_failing :
    (parse_url : Bytes → Option Url) (r : Round) (d : Daemon)
    → r.read_fails ≡ true
    → load_adoption_state parse_url (read_file r d) ≡ err LoadError.read_failed
unfolding load_adoption_state load_env
load_failing parse_url r d h = rw h refl

load_readable :
    (parse_url : Bytes → Option Url) (r : Round) (d : Daemon) (s : Store)
    → r.read_fails ≡ false
    → Agrees parse_url s d.disk
    → load_adoption_state parse_url (read_file r d) ≡ ok s
load_readable parse_url r d s h file = rw h file

-- A schedule that is ready and keeps the configuration.
record Kept (config : ScheduleConfig) (s : Schedule) : Type 0 where
  ready : IsReady s
  same_config : s.config ≡ config

module _ (config : ScheduleConfig) (base_fits : config.base_interval ≤ℤ max_int64)
    (backoff_fits : config.backoff_max ≤ℤ max_int64) where
  Kept-on_event : (s : Schedule) (e : Event) → Kept config s → Kept config (on_event s e).0
  Kept-on_event s e k = record {
    ready = on_event-IsReady s e k.ready;
    same_config = on_event-config s e ∙ k.same_config;
  }

  IsWait-on_event :
      (s : Schedule) (e : Event) → Kept config s → IsWait config (on_event s e).1.next_delay
  IsWait-on_event s e k =
      let c = k.same_config in
      let (lo, hi) = delay_bounds s e k.ready (rw c base_fits) (rw c backoff_fits) in
      (lo, subst (λ (x : ScheduleConfig). (on_event s e).1.next_delay ≤ℤ longest x) c hi)

  IsWait-current : (s : Schedule) → Kept config s → IsWait config (current s).next_delay
  unfolding current decision
  IsWait-current s k =
      let (lo, hi) =
        delay_of false s.effective s.config.base_interval s.config.backoff_max k.ready.positive
          k.ready.bounded in
      (lo, subst (λ (x : ScheduleConfig). s.effective ≤ℤ longest x) k.same_config hi)

  Kept-Steps :
      (s : Schedule) (es : List Event) (next : Schedule) (d : ScheduleDecision)
      → Steps s es next d
      → Kept config s
      → Kept config next × IsWait config d.next_delay
  Kept-Steps s [] next d (n, c) k = rw n (rw c (k, IsWait-current s k))
  Kept-Steps s (e ∷ []) next d (n, c) k = rw n (rw c (Kept-on_event s e k, IsWait-on_event s e k))
  Kept-Steps s (e ∷ (e2 ∷ es)) next d h k =
      Kept-Steps (on_event s e).0 (e2 ∷ es) next d h (Kept-on_event s e k)

  module _ (parse_url : Bytes → Option Url) (json : Json) (controller : Bytes) where
    -- The rounds that follow a round with a wait.
    Served-waited :
        (a x : Announcement) (r : Round) (rs : List Round) (delay : ℤ)
        (rest : Result PresenceError (Daemon × List ℤ))
        → Renewed a x
        → IsWait config delay
        → Served config parse_url json controller x rs rest
        → Served config parse_url json controller a (r ∷ rs) (waited delay rest)
    Served-waited a x r rs delay _ n w (Served.unreadable h) = Served.unreadable (inr h)
    Served-waited a x r rs delay _ n w (Served.unannounced y e m h) =
        Served.unannounced y e (Renewed-trans a x y n m) h
    Served-waited a x r rs delay _ n w (Served.no_payload h) = Served.no_payload (inr h)
    Served-waited a x r rs delay _ n w (Served.stopped e h) = Served.stopped e (inr h)
    Served-waited a x r rs delay _ n w (Served.running d delays s size h file) =
        Served.running d (delay ∷ delays) s (ap suc size) (w, h) file

    -- A round whose file is read, behind its announcement and its payload.
    Served-prepared :
        (a x : Announcement) (r : Round) (rs : List Round) (packet : Result MarshalError Bytes)
        (payload_fails : Bool) (rest : Result PresenceError (Daemon × List ℤ))
        → Renewed a x
        → marshal_binary x ≡ packet
        → r.payload_fails ≡ payload_fails
        → Served config parse_url json controller a (r ∷ rs) rest
        → Served config parse_url json controller a
            (r ∷ rs)
            (if_announced packet (if_payload payload_fails rest))
    Served-prepared a x r rs (err e) payload_fails rest n made p h = Served.unannounced x e n made
    Served-prepared a x r rs (ok packet) true rest n made p h = Served.no_payload (inl p)
    Served-prepared a x r rs (ok packet) false rest n made p h = h

    Served-maintain :
        (a : Announcement) (d : Daemon) (rs : List Round) (s : Store)
        → Agrees parse_url s d.disk
        → Kept config d.schedule
        → Served config parse_url json controller a rs (maintain parse_url json controller a d rs)
    unfolding maintain
    Served-maintain a d [] s h k = Served.running d [] s refl tt h
    Served-maintain a d (r ∷ rs) s h k = elim (Bool-cases r.read_fails) [
      | inl fails ↦ rw (maintain, load_failing parse_url r d fails) (Served.unreadable (inl fails))
      | inr readable ↦
          let b = heartbeat parse_url json controller r d s in
          let current = announced a r s in
          let beat =
            send_inform_heartbeat-Refines parse_url json r.setting
              (effective_inform_url controller s) s r.exchange d h in
          let (kept, w) =
            Kept-Steps d.schedule beat.events b.daemon.schedule b.decision beat.steps k in
          rw (maintain, load_readable parse_url r d s readable h)
            (Served-prepared a current r rs (marshal_binary current) r.payload_fails _
              (Renewed-announced a r s) refl refl
              (elim beat.keeps_file [
                | inl (fine, (next, holds)) ↦ rw fine (
                    Served-waited a (next_sequence current) r rs b.decision.next_delay _
                      (Renewed-next_sequence a r s) w
                      (Served-maintain (next_sequence current) b.daemon rs next holds kept))
                | inr (e, refused) ↦ rw refused (Served.stopped e (inl (d, s, refused)))
              ]))
    ]

-- A daemon that starts with an accepted schedule and an adoption file that holds a store, with a base
-- interval and a longest backoff that are 64-bit numbers, never stops because the content of the file
-- is refused, if nothing else changes the file between two rounds: over any rounds, whatever the
-- controller answers and whichever calls of the operating system fail, it ends with an error of
-- reading the file in a round that has one, with an announcement of its device that cannot be encoded,
-- with an error of the payload in a round that has one or with the error that the heartbeat of a round
-- returns, or each round has a delay that is positive and at most the longest that the configuration
-- allows, and the file still holds a store.
pub maintain-Served :
    (parse_url : Bytes → Option Url) (json : Json) (controller : Bytes) (config : ScheduleConfig)
    (a : Announcement) (d : Daemon) (rs : List Round) (s : Store)
    → config.base_interval ≤ℤ max_int64
    → config.backoff_max ≤ℤ max_int64
    → new_schedule config ≡ ok d.schedule
    → Agrees parse_url s d.disk
    → Served config parse_url json controller a rs (maintain parse_url json controller a d rs)
maintain-Served parse_url json controller config a d rs s base_fits backoff_fits h file =
    let (ready, c) = new_schedule-IsReady config d.schedule h in
    Served-maintain config base_fits backoff_fits parse_url json controller a d rs s file
      (record { ready = ready; same_config = c })
