-- ===== src/Nex/Values.antt =====
-- `Datetime` and `Result` of nex/types/common: datetime.hpp and result.hpp.
use splatit.Base.{
  ℕ, ◌+◌, ◌*◌, ◌/◌, ◌%◌, ◌^◌, ◌<◌, ◌≡◌, refl, arith, Bool, true, false, not, ◌++◌, length, ltb,
  ◌==◌, if◌then◌else◌, ok, ◌>>◌, throw_if, throw_if-eq-ok, malformed, Result, throw_if-pass, ge→ltb,
  ap, ◌∙◌,
}
use Prim.Native.Nat.{bit_or}
use splatit.Base.Bits.{bit_or_lanes, bit_or-zero, bit_or_power}
use splatit.Base.Bytes.{Bytes}
use splatit.Nex.{Codec, RoundTrips, StaysInside, ok_injective}
use splatit.Nex.Ints.{little, number, number-little}

-- The year, month and day of a time point, and its hours, minutes and seconds.
pub record Civil : Type 0 where
  pub year : ℕ
  pub month : ℕ
  pub day : ℕ
  pub hour : ℕ
  pub minute : ℕ
  pub second : ℕ

-- What the code takes from `std::chrono`: a time point as civil time, a civil time as a time point,
-- and the clock.
pub record Calendar (Time : Type 0) : Type 0 where
  pub now : Time
  pub civil : Time → Civil
  pub time_of : Civil → Time

-- The bits of a civil time.
unfoldable pub pack : Civil → ℕ
pack c =
    bit_or
      (bit_or
        (bit_or (bit_or (bit_or (c.year * 2 ^ 26 % 2 ^ 64) (c.month * 2 ^ 22)) (c.day * 2 ^ 17))
          (c.hour * 2 ^ 12))
        (c.minute * 2 ^ 6))
      c.second

unfoldable pub unpack : ℕ → Civil
unpack n = record {
  year = n / 2 ^ 26 % 2 ^ 32;
  month = n / 2 ^ 22 % 16;
  day = n / 2 ^ 17 % 32;
  hour = n / 2 ^ 12 % 32;
  minute = n / 2 ^ 6 % 64;
  second = n % 64;
}

pub record InLanes (c : Civil) : Type 0 where
  pub year_small : c.year < 2 ^ 31
  pub month_small : c.month < 16
  pub day_small : c.day < 32
  pub hour_small : c.hour < 32
  pub minute_small : c.minute < 64
  pub second_small : c.second < 64

-- The bits of a civil time whose parts fit their lanes, as a sum.
pack-sum :
    (c : Civil)
    → InLanes c
    → pack c
      ≡ c.year * 67108864
        + c.month * 4194304
        + c.day * 131072
        + c.hour * 4096
        + c.minute * 64
        + c.second
unfolding pack
pack-sum c h =
    let y = c.year * 67108864 in
    let m = y + c.month * 4194304 in
    let d = m + c.day * 131072 in
    let k = d + c.hour * 4096 in
    let one = bit_or_lanes 26 c.year (c.month * 4194304) y refl (omega (arith, h.month_small)) in
    let two =
      bit_or_lanes 22 (c.year * 16 + c.month) (c.day * 131072) m (omega arith)
        (omega (arith, h.day_small)) in
    let three =
      bit_or_lanes 17 ((c.year * 16 + c.month) * 32 + c.day) (c.hour * 4096) d (omega arith)
        (omega (arith, h.hour_small)) in
    let four =
      bit_or_lanes 12 (((c.year * 16 + c.month) * 32 + c.day) * 32 + c.hour) (c.minute * 64) k
        (omega arith) (omega (arith, h.minute_small)) in
    let five =
      bit_or_lanes 6 ((((c.year * 16 + c.month) * 32 + c.day) * 32 + c.hour) * 64 + c.minute)
        c.second (k + c.minute * 64) (omega arith) (omega (arith, h.second_small)) in
    let same : c.year * 67108864 % 18446744073709551616 ≡ y = omega (arith, h.year_small) in
    rw (same, one, two, three, four, five) refl

pack_small : (c : Civil) → InLanes c → pack c < 2 ^ 64
pack_small c h = omega (
  arith,
  pack-sum c h,
  h.year_small,
  h.month_small,
  h.day_small,
  h.hour_small,
  h.minute_small,
  h.second_small,
)

-- A civil time is read back from its bits.
pub unpack-pack : (c : Civil) → InLanes c → unpack (pack c) ≡ c
unfolding unpack
unpack-pack c h =
    let n = pack c in
    let s = pack-sum c h in
    let year : n / 67108864 % 4294967296 ≡ c.year = omega (
      arith, s, h.year_small, h.month_small, h.day_small, h.hour_small, h.minute_small,
      h.second_small,
    ) in
    let month : n / 4194304 % 16 ≡ c.month =
      omega (arith, s, h.month_small, h.day_small, h.hour_small, h.minute_small, h.second_small) in
    let day : n / 131072 % 32 ≡ c.day =
      omega (arith, s, h.day_small, h.hour_small, h.minute_small, h.second_small) in
    let hour : n / 4096 % 32 ≡ c.hour =
      omega (arith, s, h.hour_small, h.minute_small, h.second_small) in
    let minute : n / 64 % 64 ≡ c.minute = omega (arith, s, h.minute_small, h.second_small) in
    let second : n % 64 ≡ c.second = omega (arith, s, h.second_small) in
    rw (year, month, day, hour, minute, second) refl

module _ {Time : Type 0} (calendar : Calendar Time) where
  unfoldable pub datetime_decode : Time → Bytes → Result (Time × ℕ)
  datetime_decode old d =
      throw_if (ltb (length d) 8) malformed >> ok (calendar.time_of (unpack (number 8 d)), 8)

  -- `Datetime::encode` and `Datetime::decode`
  abbrev pub datetime : Codec Time
  datetime = record {
    blank = calendar.now;
    encode = λ t. little 8 (pack (calendar.civil t));
    decode = datetime_decode;
  }

  -- A time point that is a civil time to the second.
  pub record IsWhole (t : Time) : Type 0 where
    pub in_lanes : InLanes (calendar.civil t)
    pub comes_back : calendar.time_of (calendar.civil t) ≡ t

  pub datetime-RoundTrips : RoundTrips datetime IsWhole
  unfolding datetime_decode
  datetime-RoundTrips t rest whole =
      let n = pack (calendar.civil t) in
      let d = little 8 n ++ rest in
      throw_if-pass (ltb (length d) 8) malformed _ (ge→ltb _ _ (omega arith))
      ∙ rw
          (
            number-little 8 n rest (pack_small (calendar.civil t) whole.in_lanes),
            unpack-pack (calendar.civil t) whole.in_lanes,
            whole.comes_back,
          )
          refl

  pub datetime-StaysInside : StaysInside datetime
  unfolding datetime_decode
  datetime-StaysInside old v d n returns =
      let enough = throw_if-eq-ok (ltb (length d) 8) malformed _ returns in
      ground (arith, enough.0, ap (λ w. w.1) (ok_injective enough.1))

-- `Result`: the code of an error, and whether it is one.
pub record NexResult : Type 0 where
  pub code : ℕ
  pub success : Bool

unfoldable pub nex_result_decode : NexResult → Bytes → Result (NexResult × ℕ)
nex_result_decode old d =
    let value = number 4 d in
    throw_if (ltb (length d) 4) malformed
    >> ok (record { code = value % 2 ^ 31; success = not (value / 2 ^ 31 % 2 == 1) }, 4)

-- `Result::encode` and `Result::decode`
abbrev pub nex_result : Codec NexResult
nex_result = record {
  blank = record { code = 0; success = true };
  encode = λ r. little 4 (bit_or r.code (if r.success then 0 else 2 ^ 31));
  decode = nex_result_decode;
}

nex_result_read :
    (value : ℕ) (r : NexResult) (rest : Bytes)
    → value < 2 ^ 32
    → value % 2 ^ 31 ≡ r.code
    → not (value / 2 ^ 31 % 2 == 1) ≡ r.success
    → nex_result_decode nex_result.blank (little 4 value ++ rest) ≡ ok (r, 4)
unfolding nex_result_decode
nex_result_read value r rest small code success =
    throw_if-pass (ltb (length (little 4 value ++ rest)) 4) malformed _ (ge→ltb _ _ (omega arith))
    ∙ rw (number-little 4 value rest small, code, success) refl

nex_result_words :
    (c : ℕ) (s : Bool) (rest : Bytes)
    → c < 2 ^ 31
    → nex_result_decode nex_result.blank
        (nex_result.encode (record { code = c; success = s }) ++ rest)
      ≡ ok (record { code = c; success = s }, 4)
nex_result_words c true rest small =
    let value = bit_or-zero c in
    nex_result_read (bit_or c 0) (record { code = c; success = true }) rest
      (omega (arith, value, small)) (omega (arith, value, small)) (ground (arith, value, small))
nex_result_words c false rest small =
    let value = bit_or_power 31 c small in
    nex_result_read (bit_or c 2147483648) (record { code = c; success = false }) rest
      (omega (arith, value, small)) (omega (arith, value, small)) (ground (arith, value, small))

pub nex_result-RoundTrips : RoundTrips nex_result (λ r. r.code < 2 ^ 31)
nex_result-RoundTrips r rest small = nex_result_words r.code r.success rest small
