-- ===== src/Heartbeat/Refines.antt =====
-- A heartbeat drives the schedule by its events and keeps the adoption file readable.
use unifi_stubd.Prelude.{
  ◌≡◌, refl, ◌⊎◌, inl, inr, Bool, true, false, not, ◌==◌, Option, none, some, List, [], ◌∷◌, Result,
  ok, err, Bool-cases, ℕ, by_branch, not-false, tests,
}
use unifi_stubd.Prelude.Int.{pos}
use unifi_stubd.Prelude.Text.{Bytes, is_empty}
use unifi_stubd.Inform.Schedule.{Schedule, ScheduleDecision, current, success}
use unifi_stubd.Inform.Schedule.History.{Event, on_event}
use unifi_stubd.AtomicFile.{Disk}
use unifi_stubd.Adoption.Store.{Store}
use unifi_stubd.Adoption.Validate.{Url}
use unifi_stubd.Adoption.Env.{SaveError}
use unifi_stubd.Adoption.Json.{Json}
use unifi_stubd.Adoption.Response.{
  ControllerResponse, ResponseError, parse_controller_response_info,
}
use unifi_stubd.Adoption.Update.{Updated, update_adoption_state}
use unifi_stubd.Adoption.Update.Agreement.{Agrees, Settled, update_adoption_state-Settled}
use unifi_stubd.Heartbeat.{
  Beat, Daemon, Exchange, Setting, controller_interval_duration, failed_beat, response_or, report,
  scheduled, applied_beat, settle, parsed_beat, send_inform_heartbeat,
}

-- The schedule after the events of a heartbeat, and the decision of the last one.
abbrev pub Steps : Schedule → List Event → Schedule → ScheduleDecision → Type 0
Steps s [] next decision = (next ≡ s) × (decision ≡ current s)
Steps s (e ∷ []) next decision = (next ≡ (on_event s e).0) × (decision ≡ (on_event s e).1)
Steps s (e ∷ (e2 ∷ es)) next decision = Steps (on_event s e).0 (e2 ∷ es) next decision

-- A heartbeat that has a URL and an answer with status 200 and a body.
pub record HasBody (url : Bytes) (exchange : Exchange) (raw_bytes : ℕ) (body : Bytes)
    (used_gcm : Bool) : Type 0 where
  pub url_given : is_empty url ≡ false
  pub status : ℕ
  pub received : exchange ≡ Exchange.answered status raw_bytes body used_gcm
  pub status_ok : status ≡ 200
  pub body_given : raw_bytes ≡ 0 → ⊥

-- The answer after the update: the changed one, if the update returns one.
abbrev pub IsAnswer : ControllerResponse → Option ControllerResponse → ControllerResponse → Type 0
IsAnswer r none q = q ≡ r
IsAnswer r (some changed) q = q ≡ changed

module _ (parse_url : Bytes → Option Url) (json : Json) (t : Setting) (url : Bytes) (s : Store)
    (exchange : Exchange) (d : Daemon) where
  -- The update of the adoption state by an answer that was parsed.
  abbrev pub update_of : ControllerResponse → Bool → Updated
  update_of r used_gcm =
      update_adoption_state parse_url t.faults t.state_path s (some r) used_gcm d.disk

  -- An answer that was parsed and whose update returned no error.
  pub record Applied (q : ControllerResponse) : Type 0 where
    pub raw_bytes : ℕ
    pub body : Bytes
    pub used_gcm : Bool
    pub has_body : HasBody url exchange raw_bytes body used_gcm
    pub parsed_as : ControllerResponse
    pub parsed : parse_controller_response_info parse_url json body ≡ ok parsed_as
    pub saved : (update_of parsed_as used_gcm).error ≡ none
    pub answer : IsAnswer parsed_as (update_of parsed_as used_gcm).response q

  -- The events of the schedule and the error that the exchange of a heartbeat must lead to.
  pub data Caused : List Event → Option SaveError → Type 0 where
    no_url : is_empty url ≡ true → Caused [] none
    no_answer :
        is_empty url ≡ false
        → exchange ≡ Exchange.send_failed
        → Caused (Event.failed t.draw ∷ []) none
    bad_status :
        (status raw_bytes : ℕ) (body : Bytes) (used_gcm : Bool)
        → is_empty url ≡ false
        → exchange ≡ Exchange.answered status raw_bytes body used_gcm
        → (status ≡ 200 → ⊥)
        → Caused (Event.failed t.draw ∷ []) none
    no_body :
        (body : Bytes) (used_gcm : Bool)
        → is_empty url ≡ false
        → exchange ≡ Exchange.answered 200 0 body used_gcm
        → Caused (Event.succeeded (pos 0) false ∷ []) none
    not_parsed :
        (raw_bytes : ℕ) (body : Bytes) (used_gcm : Bool) (e : ResponseError)
        → HasBody url exchange raw_bytes body used_gcm
        → parse_controller_response_info parse_url json body ≡ err e
        → Caused (Event.failed t.draw ∷ []) none
    not_saved :
        (raw_bytes : ℕ) (body : Bytes) (used_gcm : Bool) (r : ControllerResponse) (e : SaveError)
        → HasBody url exchange raw_bytes body used_gcm
        → parse_controller_response_info parse_url json body ≡ ok r
        → (update_of r used_gcm).error ≡ some e
        → Caused (Event.failed t.draw ∷ []) (some e)
    applied :
        (q : ControllerResponse)
        → Applied q
        → q.reset_applied ≡ false
        → Caused
            (Event.succeeded (controller_interval_duration q.interval_seconds) q.immediate ∷ [])
            none
    applied_reset :
        (q : ControllerResponse)
        → Applied q
        → q.reset_applied ≡ true
        → Caused
            (Event.succeeded (controller_interval_duration q.interval_seconds) q.immediate
              ∷ (Event.cleared ∷ []))
            none

  -- Without an error some store agrees with the adoption file.
  abbrev pub KeepsFile : Beat → Type 0
  KeepsFile b =
      ((b.error ≡ none) × ((next : Store) × Agrees parse_url next b.daemon.disk))
      ⊎ ((e : SaveError) × (b.error ≡ some e))

  pub record Refines (b : Beat) : Type 0 where
    pub events : List Event
    pub caused : Caused events b.error
    pub steps : Steps d.schedule events b.daemon.schedule b.decision
    pub keeps_file : KeepsFile b

  Refines-failed :
      Agrees parse_url s d.disk → Caused (Event.failed t.draw ∷ []) none → Refines (failed_beat t d)
  Refines-failed h c = record {
    events = Event.failed t.draw ∷ [];
    caused = c;
    steps = (refl, refl);
    keeps_file = inl (refl, (s, h));
  }

  Refines-Applied :
      (q : ControllerResponse) (disk : Disk) (next : Store)
      → Agrees parse_url next disk
      → Applied q
      → Refines (applied_beat t q (record d { disk = disk }))
  unfolding applied_beat report
  Refines-Applied q disk next h a =
      let i = controller_interval_duration q.interval_seconds in
      elim (Bool-cases q.reset_applied) [
        | inl b ↦ rw b (record {
          events = Event.succeeded i q.immediate ∷ (Event.cleared ∷ []);
          caused = Caused.applied_reset q a b;
          steps = (refl, refl);
          keeps_file = inl (refl, (next, h));
        })
        | inr b ↦ rw b (record {
          events = Event.succeeded i q.immediate ∷ [];
          caused = Caused.applied q a b;
          steps = (refl, refl);
          keeps_file = inl (refl, (next, h));
        })
      ]

  IsAnswer-response_or :
      (r : ControllerResponse) (o : Option ControllerResponse) → IsAnswer r o (response_or r o)
  IsAnswer-response_or r none = refl
  IsAnswer-response_or r (some changed) = refl

  Refines-settle :
      (raw_bytes : ℕ) (body : Bytes) (used_gcm : Bool) (r : ControllerResponse)
      → HasBody url exchange raw_bytes body used_gcm
      → parse_controller_response_info parse_url json body ≡ ok r
      → Settled parse_url s (update_of r used_gcm)
      → Refines (settle t d r (update_of r used_gcm))
  Refines-settle raw_bytes body used_gcm r has parsed (inl (fine, agrees)) =
      let u = update_of r used_gcm in
      rw fine (
        Refines-Applied (response_or r u.response) u.disk u.store agrees (record {
          raw_bytes = raw_bytes;
          body = body;
          used_gcm = used_gcm;
          has_body = has;
          parsed_as = r;
          parsed = parsed;
          saved = fine;
          answer = IsAnswer-response_or r u.response;
        }))
  Refines-settle raw_bytes body used_gcm r has parsed (inr ((e, refused), _)) = rw refused (record {
    events = Event.failed t.draw ∷ [];
    caused = Caused.not_saved raw_bytes body used_gcm r e has parsed refused;
    steps = (refl, refl);
    keeps_file = inr (e, refl);
  })

  Refines-parsed :
      (raw_bytes : ℕ) (body : Bytes) (used_gcm : Bool)
      (parsed : Result ResponseError ControllerResponse)
      → Agrees parse_url s d.disk
      → HasBody url exchange raw_bytes body used_gcm
      → parse_controller_response_info parse_url json body ≡ parsed
      → Refines (parsed_beat parse_url t s used_gcm d parsed)
  Refines-parsed raw_bytes body used_gcm (err e) h has parsed =
      Refines-failed h (Caused.not_parsed raw_bytes body used_gcm e has parsed)
  Refines-parsed raw_bytes body used_gcm (ok r) h has parsed =
      Refines-settle raw_bytes body used_gcm r has parsed
        (update_adoption_state-Settled parse_url t.faults t.state_path s (some r) used_gcm d.disk h)

  Refines-idle :
      Agrees parse_url s d.disk
      → is_empty url ≡ true
      → Refines (scheduled d (d.schedule, current d.schedule))
  Refines-idle h empty = record {
    events = [];
    caused = Caused.no_url empty;
    steps = (refl, refl);
    keeps_file = inl (refl, (s, h));
  }

  Refines-success :
      (body : Bytes) (used_gcm : Bool)
      → Agrees parse_url s d.disk
      → is_empty url ≡ false
      → exchange ≡ Exchange.answered 200 0 body used_gcm
      → Refines (scheduled d (success d.schedule (pos 0)))
  unfolding success
  Refines-success body used_gcm h given received = record {
    events = Event.succeeded (pos 0) false ∷ [];
    caused = Caused.no_body body used_gcm given received;
    steps = (refl, refl);
    keeps_file = inl (refl, (s, h));
  }

other_number : (n m : ℕ) → not (n == m) ≡ true → n ≡ m → ⊥
other_number n m h = grind tests

same_number : (n m : ℕ) → (n == m) ≡ true → n ≡ m
same_number n m h = grind tests

distinct : (n m : ℕ) → (n == m) ≡ false → n ≡ m → ⊥
distinct n m h = grind tests

module _ (parse_url : Bytes → Option Url) (json : Json) where
  -- If the adoption file held the store of the heartbeat, then the exchange decides the steps of the
  -- schedule, and the decision is that of the last one: none without a URL, a failure with the draw of
  -- the jitter without an answer, for a status other than 200, for an answer that is not parsed and for
  -- one that cannot be saved, a success without a hint for an empty body, and for an answer that was
  -- applied a success with its interval and its immediate mark, which a reset follows exactly if the
  -- answer has reset the adoption. An error is returned exactly for an answer that cannot be saved, and
  -- without an error the adoption file holds a store afterwards.
  pub send_inform_heartbeat-Refines :
      (t : Setting) (url : Bytes) (s : Store) (exchange : Exchange) (d : Daemon)
      → Agrees parse_url s d.disk
      → Refines parse_url json t url s exchange d
          (send_inform_heartbeat parse_url json t url s exchange d)
  unfolding send_inform_heartbeat
  send_inform_heartbeat-Refines t url s Exchange.send_failed d h =
      by_branch (Refines parse_url json t url s Exchange.send_failed d) (is_empty url) _ _
        (λ empty. Refines-idle parse_url json t url s Exchange.send_failed d h empty)
        (λ given.
          Refines-failed parse_url json t url s Exchange.send_failed d h
            (Caused.no_answer given refl))
  send_inform_heartbeat-Refines t url s (Exchange.answered status raw_bytes body used_gcm) d h =
      let exchange = Exchange.answered status raw_bytes body used_gcm in
      let P = Refines parse_url json t url s exchange d in
      by_branch P (is_empty url) _ _
        (λ empty. Refines-idle parse_url json t url s exchange d h empty)
        (λ given.
          by_branch P (not (status == 200)) _ _
            (λ other. Refines-failed parse_url json t url s exchange d h (
              Caused.bad_status status raw_bytes body used_gcm given refl
                (other_number status 200 other)))
            (λ fine.
              let is_ok = same_number status 200 (not-false (status == 200) fine) in
              by_branch P (raw_bytes == 0) _ _
                (λ empty.
                  Refines-success parse_url json t url s exchange d body used_gcm h given
                    (rw (is_ok, same_number raw_bytes 0 empty) refl))
                (λ full.
                  Refines-parsed parse_url json t url s exchange d raw_bytes body used_gcm _ h
                    (record {
                      url_given = given;
                      status = status;
                      received = refl;
                      status_ok = is_ok;
                      body_given = distinct raw_bytes 0 full;
                    })
                    refl)))
