-- ===== src/Observe/Apply/Tracked.antt =====
-- What the ports are while the members of a bridge are assigned to them.
use unifi_stubd.Prelude.{
  ℕ, zero, suc, ◌+◌, ◌<◌, ◌≡◌, ◌≢◌, ◌⊎◌, ◌∙◌, inl, inr, arith, true, false, ◌==◌, List, [], ◌∷◌,
  some, Bool-cases, ==_iff,
}
use unifi_stubd.Prelude.Text.{Bytes}
use unifi_stubd.Prelude.Maps.{lookup}
use unifi_stubd.Device.{MacTableEntry, Port}
use unifi_stubd.Observe.{PortObservation, Snapshot}
use unifi_stubd.Observe.Classify.{find_member, member_role}
use unifi_stubd.Observe.Macs.{is_remote, is_left_out, leads_upstream, entries_of}
use unifi_stubd.Observe.Apply.{change_at, has_index, remote_of}

-- A port with the name, interface, media, link, counters and addresses of another.
abbrev pub restored : Port → Port → Port
restored o p = record p {
  name = o.name;
  interface = o.interface;
  media = o.media;
  up = o.up;
  speed = o.speed;
  macs = o.macs;
  counters_set = o.counters_set;
  rx_bytes = o.rx_bytes;
  tx_bytes = o.tx_bytes;
  rx_packets = o.rx_packets;
  tx_packets = o.tx_packets;
  rx_errors = o.rx_errors;
  tx_errors = o.tx_errors;
}

abbrev pub In : MacTableEntry → List MacTableEntry → Type 0
In e [] = ⊥
In e (x ∷ es) = (x ≡ e) ⊎ In e es

-- The entry was learned on a member that gets a port and does not lead upstream, and its address is not
-- one of those behind the uplink.
abbrev pub IsLearned : Snapshot → MacTableEntry → Type 0
IsLearned s e =
    (name : Bytes) × In e (entries_of (lookup name s.device_macs))
    × (is_left_out (member_role s.member_roles name) ≡ false)
    × (leads_upstream s.member_roles s.interface name ≡ false)
    × (is_remote (remote_of s) e ≡ false)

abbrev pub AllLearned : Snapshot → List MacTableEntry → Type 0
AllLearned s [] = Unit
AllLearned s (e ∷ es) = IsLearned s e × AllLearned s es

-- The source has reported that the uplink or a member is up.
abbrev pub UpReported : Snapshot → Type 0
UpReported s =
    (s.up ≡ some true)
    ⊎ ((name : Bytes) × (o : PortObservation) × (find_member name s.member_ports ≡ some o)
        × (o.up ≡ some true))

-- A port that is used is up only if that was reported.
pub record IsTracked (s : Snapshot) (used : List ℕ) (index : ℕ) (o p : Port) : Type 0 where
  pub kept : restored o p ≡ o
  pub place : o.index ≡ index
  pub learned : AllLearned s p.macs
  pub shown : has_index index used ≡ true → p.up ≡ true → UpReported s

abbrev pub Tracked : Snapshot → List ℕ → ℕ → List Port → List Port → Type 0
Tracked s used i [] [] = Unit
Tracked s used i [] (p ∷ ps) = ⊥
Tracked s used i (o ∷ os) [] = ⊥
Tracked s used i (o ∷ os) (p ∷ ps) = IsTracked s used (suc i) o p × Tracked s used (suc i) os ps

-- A change of a port that shows an observation.
pub record Shows (s : Snapshot) (f : Port → Port) : Type 0 where
  pub same_rest : (o p : Port) → restored o (f p) ≡ restored o p
  pub only_learned : (p : Port) → AllLearned s (f p).macs
  pub only_reported : (p : Port) → (f p).up ≡ true → UpReported s

has_index-skip :
    (t i : ℕ) (used : List ℕ) → t ≢ i → has_index i (t ∷ used) ≡ true → has_index i used ≡ true
has_index-skip t i used ne h = elim (Bool-cases (t == i)) [
  | inl hit ↦ absurd (ne ((==_iff t i).0 hit))
  | inr miss ↦ cc
]

module _ (s : Snapshot) where
  kept_off :
      (t i : ℕ) (used : List ℕ) (o p : Port)
      → t ≢ i
      → IsTracked s used i o p
      → IsTracked s (t ∷ used) i o p
  kept_off t i used o p ne tr = record {
    kept = tr.kept;
    place = tr.place;
    learned = tr.learned;
    shown = λ h up. tr.shown (has_index-skip t i used ne h) up;
  }

  Tracked-beyond :
      (t i : ℕ) (used : List ℕ) (os ps : List Port)
      → t < suc i
      → Tracked s used i os ps
      → Tracked s (t ∷ used) i os ps
  Tracked-beyond t i used [] [] less tr = tt
  Tracked-beyond t i used [] (p ∷ ps) less tr = absurd tr
  Tracked-beyond t i used (o ∷ os) [] less tr = absurd tr
  Tracked-beyond t i used (o ∷ os) (p ∷ ps) less (a, rest) = (
    kept_off t (suc i) used o p (λ e. omega (arith, less, e)) a,
    Tracked-beyond t (suc i) used os ps (omega arith) rest,
  )

  -- The port with an index changes, and is used from then on.
  pub change_at-Tracked :
      (f : Port → Port) (t k i : ℕ) (used : List ℕ) (os ps : List Port)
      → Shows s f
      → t ≡ suc (k + i)
      → Tracked s used i os ps
      → Tracked s (t ∷ used) i os (change_at k f ps)
  change_at-Tracked f t k i used [] [] good e tr = tt
  change_at-Tracked f t k i used [] (p ∷ ps) good e tr = absurd tr
  change_at-Tracked f t k i used (o ∷ os) [] good e tr = absurd tr
  change_at-Tracked f t zero i used (o ∷ os) (p ∷ ps) good e (a, rest) = (
    record {
      kept = good.same_rest o p ∙ a.kept;
      place = a.place;
      learned = good.only_learned p;
      shown = λ h up. good.only_reported p up;
    },
    Tracked-beyond t (suc i) used os ps (omega arith) rest,
  )
  change_at-Tracked f t (suc k) i used (o ∷ os) (p ∷ ps) good e (a, rest) = (
    kept_off t (suc i) used o p (λ same. omega (arith, e, same)) a,
    change_at-Tracked f t k (suc i) used os ps good (omega arith) rest,
  )
