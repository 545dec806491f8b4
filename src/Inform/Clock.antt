-- ===== src/Inform/Clock.antt =====
-- internal/inform/controller_clock.go. A `time.Time` is its seconds and nanoseconds since 1970; the
-- location does not change them and is left out.
use unifi_stubd.Prelude.{
  ℕ, ◌≡◌, ◌∙◌, Bool, true, false, not, ◌&&◌, if◌then◌else◌, arith, Option, none, some,
}
use unifi_stubd.Prelude.Int.{
  ℤ, pos, negsuc, ltb_ℤ, ◌+ℤ◌, ◌-ℤ◌, add64, sub64, quot, max_int64, min_int64, IsInt64, add64_exact,
  sub64_exact,
}

pub record Time : Type 0 where
  pub unix : ℤ
  pub nanosecond : ℕ

pub record ControllerClock : Type 0 where
  pub offset_seconds : ℤ
  pub set : Bool

unfoldable pub saturating_add : ℤ → ℤ → ℤ
saturating_add left right =
    if ltb_ℤ (pos 0) right && ltb_ℤ (sub64 max_int64 right) left
    then max_int64
    else if ltb_ℤ right (pos 0) && ltb_ℤ left (sub64 min_int64 right)
    then min_int64
    else add64 left right

unfoldable pub saturating_subtract : ℤ → ℤ → ℤ
saturating_subtract left right =
    if ltb_ℤ right (pos 0) && ltb_ℤ (add64 max_int64 right) left
    then max_int64
    else if ltb_ℤ (pos 0) right && ltb_ℤ left (add64 min_int64 right)
    then min_int64
    else sub64 left right

unfoldable pub update : ControllerClock → ℤ → Time → ControllerClock
unfolding saturating_subtract
update clock server_time_millis local = record {
  offset_seconds = saturating_subtract (quot server_time_millis 1000) local.unix;
  set = true;
}

-- `none` is a nil clock.
unfoldable pub apply : Option ControllerClock → Time → Time
unfolding saturating_add
apply none local = local
apply (some clock) local = if not clock.set then local else record {
  unix = saturating_add local.unix clock.offset_seconds;
  nanosecond = local.nanosecond;
}

unfoldable pub offset_seconds : Option ControllerClock → ℤ
offset_seconds none = pos 0
offset_seconds (some clock) = if not clock.set then pos 0 else clock.offset_seconds

unfoldable pub is_set : Option ControllerClock → Bool
is_set none = false
is_set (some clock) = clock.set

unfoldable pub reset : Option ControllerClock → Option ControllerClock
reset none = none
reset (some clock) = some (record { offset_seconds = pos 0; set = false })

-- The true sum cut off to the range of an `int64`.
abbrev pub saturate : ℤ → ℤ
saturate z = if ltb_ℤ max_int64 z then max_int64 else if ltb_ℤ z min_int64 then min_int64 else z

pub saturating_add_lem : (a b : ℤ) → IsInt64 a → IsInt64 b → saturating_add a b ≡ saturate (a +ℤ b)
unfolding saturating_add ◌+ℤ◌ ◌-ℤ◌
saturating_add_lem a b h k =
    ground (arith, add64_exact a b, sub64_exact max_int64 b, sub64_exact min_int64 b)

pub saturating_subtract_lem :
    (a b : ℤ) → IsInt64 a → IsInt64 b → saturating_subtract a b ≡ saturate (a -ℤ b)
unfolding saturating_subtract ◌+ℤ◌ ◌-ℤ◌
saturating_subtract_lem a b h k =
    ground (arith, sub64_exact a b, add64_exact max_int64 b, add64_exact min_int64 b)

saturate_id : (z : ℤ) → IsInt64 z → saturate z ≡ z
saturate_id z h = ground arith

quot-IsInt64 : (z : ℤ) → IsInt64 z → IsInt64 (quot z 1000)
unfolding quot
quot-IsInt64 (pos n) h = ground arith
quot-IsInt64 (negsuc n) h = ground arith

-- After an update at local time `learned`, the clock shows the server's seconds plus the local
-- seconds that have passed since, wherever the offset and the result are in range. The host's
-- nanoseconds are kept.
pub clock_tracks :
    (clock : ControllerClock) (server_ms : ℤ) (learned now : Time)
    → IsInt64 server_ms
    → IsInt64 learned.unix
    → IsInt64 now.unix
    → IsInt64 (quot server_ms 1000 -ℤ learned.unix)
    → IsInt64 (now.unix +ℤ (quot server_ms 1000 -ℤ learned.unix))
    → apply (some (update clock server_ms learned)) now ≡ record {
      unix = now.unix +ℤ (quot server_ms 1000 -ℤ learned.unix);
      nanosecond = now.nanosecond;
    }
unfolding apply update
clock_tracks clock server_ms learned now a b c d e =
    let diff = quot server_ms 1000 -ℤ learned.unix in
    let offset : saturating_subtract (quot server_ms 1000) learned.unix ≡ diff =
      saturating_subtract_lem _ _ (quot-IsInt64 server_ms a) b ∙ saturate_id diff d in
    let shown : saturating_add now.unix diff ≡ now.unix +ℤ diff =
      saturating_add_lem now.unix diff c d ∙ saturate_id (now.unix +ℤ diff) e in
    rw offset (rw shown)
