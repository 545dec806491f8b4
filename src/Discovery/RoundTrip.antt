-- ===== src/Discovery/RoundTrip.antt =====
-- A receiver reads back the records of an announcement.
use unifi_stubd.Prelude.{
  ℕ, zero, suc, ◌+◌, ◌*◌, ◌/◌, ◌%◌, ◌^◌, ◌<◌, ◌≡◌, refl, sym, ap, ◌∙◌, arith, false, not, Option,
  none, some, List, [], ◌∷◌, ◌++◌, length, length-append, take, drop, take_of_append,
  drop_of_append, ltb, if◌then◌else◌, ok, ok-injective, Bool-cases, Option-cases, inl, inr,
  else_branch, ◌==◌,
}
use mathlib.Core.Path.{subst}
use unifi_stubd.Prelude.Text.{Bytes}
use unifi_stubd.Inform.Packet.{uint16_bytes}
use unifi_stubd.Discovery.{
  Announcement, tlv_packet_version, packet_type, to4, records, write_tlvs, marshal_ipv4,
  marshal_binary,
}

abbrev pub prepend : ℕ × Bytes → Option (List (ℕ × Bytes)) → Option (List (ℕ × Bytes))
prepend r none = none
prepend r (some rs) = some (r ∷ rs)

-- A receiver: the records of a payload, on fuel, which one for each record and one more is enough.
pub read_tlvs : ℕ → Bytes → Option (List (ℕ × Bytes))
read_tlvs zero s = none
read_tlvs (suc n) [] = some []
read_tlvs (suc n) (typ ∷ hi ∷ lo ∷ s) =
    let size = hi * 256 + lo in
    let rest = read_tlvs n (drop size s) in
    if ltb (length s) size then none else prepend (typ, take size s) rest
read_tlvs (suc n) _ = none

abbrev pub AllFit : List (ℕ × Bytes) → Type 0
AllFit [] = Unit
AllFit ((typ, value) ∷ rs) = (length value < 2 ^ 16) × AllFit rs

read_tlvs-write :
    (rs : List (ℕ × Bytes)) (n : ℕ)
    → AllFit rs
    → length rs < n
    → read_tlvs n (write_tlvs rs) ≡ some rs
unfolding read_tlvs write_tlvs
read_tlvs-write rs zero fit h = absurd (omega arith)
read_tlvs-write [] (suc n) fit h = refl
read_tlvs-write ((typ, value) ∷ rs) (suc n) fit h =
    let rest = write_tlvs rs in
    let size : length value % 2 ^ 16 / 256 % 256 * 256 + length value % 2 ^ 16 % 256
        ≡ length value =
      omega arith in
    let enough : ltb (length (value ++ rest)) (length value) ≡ false =
      ground (arith, length-append value rest) in
    rw (
      size,
      enough,
      drop_of_append value rest (length value) refl,
      take_of_append value rest (length value) refl,
      read_tlvs-write rs n fit.1 (omega arith),
    )

AllFit-of_total : (rs : List (ℕ × Bytes)) → length (write_tlvs rs) < 2 ^ 16 → AllFit rs
unfolding write_tlvs
AllFit-of_total [] h = tt
AllFit-of_total ((typ, value) ∷ rs) h =
    let total = length-append value (write_tlvs rs) in
    (omega arith, AllFit-of_total rs (omega arith))

-- The header of a packet.
abbrev pub IsPacket : Bytes → Bytes → Type 0
IsPacket packet payload =
    (packet ≡ tlv_packet_version ∷ packet_type ∷ uint16_bytes (length payload) ++ payload)
    × (length payload < 2 ^ 16)

marshal_ipv4-IsPacket :
    (a : Announcement) (ip packet : Bytes)
    → marshal_ipv4 a (some ip) ≡ ok packet
    → IsPacket packet (write_tlvs (records a ip))
unfolding marshal_ipv4
marshal_ipv4-IsPacket a ip packet h =
    elim (Bool-cases (ltb 0xffff (length (write_tlvs (records a ip))))) [
      | inl e ↦ absurd (ground arith)
      | inr e ↦
          let made =
            ok-injective (else_branch (ltb 0xffff (length (write_tlvs (records a ip)))) _ _ e h) in
          let small : length (write_tlvs (records a ip)) < 2 ^ 16 = ground arith in
          let whole : length (write_tlvs (records a ip)) % 2 ^ 16
              ≡ length (write_tlvs (records a ip)) =
            omega arith in
          (
            sym made
                ∙ ap
                    (λ (n : ℕ).
                      tlv_packet_version ∷ packet_type ∷ uint16_bytes n
                      ++ write_tlvs (records a ip))
                    whole,
            small,
          )
    ]

-- A packet that `MarshalBinary` returns has the type and version of an announcement and the length of
-- its payload, and a receiver reads from the payload exactly the records of the device, in order: both
-- addresses, uptime, hostname if there is one, version, model, serial, sequence and factory state.
pub marshal_binary-read :
    (a : Announcement) (packet : Bytes)
    → marshal_binary a ≡ ok packet
    → (ip : Bytes) × (to4 a.ip ≡ some ip)
      × (length a.mac ≡ 6)
      × (payload : Bytes) × IsPacket packet payload
      × (read_tlvs (suc (length (records a ip))) payload ≡ some (records a ip))
unfolding marshal_binary marshal_ipv4
marshal_binary-read a packet h =
    let six : (not (length a.mac == 6)) ≡ false = ground arith in
    let rest = else_branch (not (length a.mac == 6)) _ _ six h in
    elim (Option-cases (to4 a.ip)) [
      | inl e ↦ absurd (ground arith)
      | inr (ip, e) ↦
          let made : marshal_ipv4 a (some ip) ≡ ok packet =
            subst (λ o. marshal_ipv4 a o ≡ ok packet) e rest in
          let (is_packet, small) = marshal_ipv4-IsPacket a ip packet made in
          (
            ip,
            e,
            ground arith,
            write_tlvs (records a ip),
            (is_packet, small),
            read_tlvs-write (records a ip) _ (AllFit-of_total (records a ip) small) (omega arith),
          )
    ]
