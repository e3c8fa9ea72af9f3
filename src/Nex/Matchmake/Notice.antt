-- ===== src/Nex/Matchmake/Notice.antt =====
-- `NotificationEvent` of nex/types/splatoonSecure/notificationEvent.hpp. The type of an event is its
-- number.
use splatit.Base.{
  ℕ, ◌+◌, ◌%◌, ◌^◌, ◌<◌, ◌≡◌, refl, arith, Result, ok, err, length_error, malformed, ◌++◌, length,
  ◌>>=◌, ◌∙◌, lt→ltb, ltb, ge→ltb, throw_if-pass,
}
use splatit.Base.Bytes.{Bytes, read16}
use splatit.Nex.{Codec, ◌⊗◌, ◌⊠◌, ◌◂◌, pair, decode_second}
use splatit.Nex.Ints.{little, u32, int-RoundTrips, int_decode}
use splatit.Nex.Text.{string, string_decode, string_encode}
use splatit.Nex.Structure.{structure, decode_behind}

pub record NotificationEvent : Type 0 where
  pub src_pid : ℕ
  pub type : ℕ
  pub param1 : ℕ
  pub param2 : ℕ
  pub str_param : Bytes
  pub param3 : ℕ

-- The fields in the order of `encode`, and those that `decode` reads.
unfoldable pub written_fields : Codec (ℕ ⊠ ℕ ⊠ ℕ ⊠ ℕ ⊠ Bytes ⊠ ℕ)
written_fields = u32 ⊗ u32 ⊗ u32 ⊗ u32 ⊗ string ⊗ u32

unfoldable pub read_fields : Codec (ℕ ⊠ ℕ ⊠ ℕ ⊠ Bytes ⊠ ℕ)
read_fields = u32 ⊗ u32 ⊗ u32 ⊗ string ⊗ u32

-- `NotificationEvent::encode`
unfoldable pub event_encode : ℕ → NotificationEvent → Bytes
event_encode minor_version v =
    (structure minor_version 0 written_fields).encode
      (v.src_pid ◂ v.type ◂ v.param1 ◂ v.param2 ◂ v.str_param ◂ v.param3)

-- `NotificationEvent::decode`, which leaves `srcPid` as it is.
unfoldable pub event_decode : ℕ → NotificationEvent → Bytes → Result (NotificationEvent × ℕ)
event_decode minor_version old d =
    (structure minor_version 0 read_fields).decode
      (old.type ◂ old.param1 ◂ old.param2 ◂ old.str_param ◂ old.param3) d
    >>= λ (q : (ℕ ⊠ ℕ ⊠ ℕ ⊠ Bytes ⊠ ℕ) × ℕ). ok (
      record old {
        type = q.0.0;
        param1 = q.0.1.0;
        param2 = q.0.1.1.0;
        str_param = q.0.1.1.1.0;
        param3 = q.0.1.1.1.1;
      },
      q.1,
    )

string_decode-zero :
    (old rest : Bytes) (p : ℕ)
    → p % 65536 ≡ 0
    → string_decode old (little 4 p ++ rest) ≡ err length_error
unfolding string_decode
string_decode-zero old rest p even =
    let d = little 4 p ++ rest in
    let zero_length : read16 d 0 ≡ 0 = omega (arith, even) in
    throw_if-pass (ltb (length d) 2) malformed _ (ge→ltb _ _ (omega arith))
    ∙ (throw_if-pass (ltb (length d) (read16 d 0 + 2)) malformed _
          (ge→ltb _ _ (omega (arith, zero_length)))
        ∙ rw zero_length refl)

-- Below minor version 3, `decode` of what `encode` wrote for an event whose first three numbers
-- fit and whose second parameter is a multiple of 65536 ends in a length error.
pub decode-encode_event :
    (minor_version : ℕ) (old v : NotificationEvent) (rest : Bytes)
    → minor_version < 3
    → v.src_pid < 2 ^ 32
    → v.type < 2 ^ 32
    → v.param1 < 2 ^ 32
    → v.param2 % 65536 ≡ 0
    → event_decode minor_version old (event_encode minor_version v ++ rest) ≡ err length_error
unfolding event_decode event_encode structure written_fields read_fields pair decode_second
    decode_behind int_decode
decode-encode_event minor_version old v rest low a b c even =
    let behind = (string_encode v.str_param ++ little 4 v.param3) ++ rest in
    let last = little 4 v.param2 ++ behind in
    rw
      (
        lt→ltb minor_version 3 low,
        int-RoundTrips 4 v.src_pid (little 4 v.type ++ (little 4 v.param1 ++ last)) a,
        int-RoundTrips 4 v.type (little 4 v.param1 ++ last) b,
        int-RoundTrips 4 v.param1 last c,
        string_decode-zero old.str_param behind v.param2 even,
      )
      refl
