-- ===== src/Prudp/Kerberos/Guards.antt =====
-- What `decryptConnectRequest` of nex/prudp/kerberos.cpp lets through.
use splatit.Base.{
  ℕ, ◌+◌, ◌-◌, ◌≤◌, ◌≡◌, refl, ap, ◌∙◌, arith, Bool, true, false, not, sym, subst, ok, length, take,
  drop, ltb, Result, ◌==◌, ==_iff, ◌>>=◌, throw_if-pass, runtime, >>=-eq-ok, throw_if-eq-ok,
}
use splatit.Base.Bytes.{Bytes, read32, bytes_eq, bytes_eq→eq}
use splatit.Crypto.{Digest}
use splatit.Crypto.Arc4.{init, decrypt}
use splatit.Prudp.Kerberos.{
  Sections, split_sections, open_sealed, decode_datetime, generate_user_key, Request,
  decrypt_connect_request, ticket_leeway,
}

-- A section that ends with the HMAC of what stands before it.
abbrev pub Sealed : Digest → Bytes → Bytes → Type 0
Sealed digest key d =
    (16 ≤ length d) × (digest.hmac_md5 key (take (length d - 16) d) ≡ drop (length d - 16) d)

not_short : (n : ℕ) → ltb n 16 ≡ false → 16 ≤ n
not_short n h = ground arith

not-not : (b : Bool) → not b ≡ false → b ≡ true
not-not true h = refl
not-not false h = sym h

still : (w v t : ℕ) → ltb v t ≡ false → v ≤ w → ltb w t ≡ false
still w v t h k = ground arith

bind-ok {ℓ κ} :
    {A : Type ℓ} {B : Type κ} (m : Result A) (f : A → Result B) (a : A) → m ≡ ok a → (m >>= f) ≡ f a
bind-ok m f a h = ap (λ m. m >>= f) h

abbrev accept : Request → Result Request
accept r = ok r

ok_injective : {V : Type 0} {v w : V} → ok v ≡ ok w → v ≡ w
ok_injective same = cc

open_sealed-Sealed :
    (digest : Digest) (key d inner : Bytes)
    → open_sealed digest key d ≡ ok inner
    → Sealed digest key d
unfolding open_sealed
open_sealed-Sealed digest key d inner e =
    let body = take (length d - 16) d in
    let mac = drop (length d - 16) d in
    let same = bytes_eq (digest.hmac_md5 key body) mac in
    let (long, e₁) = throw_if-eq-ok (ltb (length d) 16) runtime _ e in
    let (differs, e₂) = throw_if-eq-ok (not same) runtime _ e₁ in
    (not_short (length d) long, bytes_eq→eq (digest.hmac_md5 key body) mac (not-not same differs))

module _ (digest : Digest) (to_time : ℕ → ℕ → ℕ → ℕ → ℕ → ℕ → ℕ) where
  -- The parts of a request that was accepted.
  record Accepted (now : ℕ) (ticket passwd : Bytes) (pid : ℕ) (r : Request) : Type 0 where
    sections : Sections
    inner : Bytes
    date : ℕ
    body : Bytes
    is_split : split_sections ticket ≡ ok sections
    is_open : open_sealed digest (generate_user_key digest passwd pid) sections.ticket ≡ ok inner
    inner_long : ltb (length inner) 12 ≡ false
    is_date : decode_datetime to_time inner ≡ ok date
    in_time : ltb (now + ticket_leeway) date ≡ false
    is_body : open_sealed digest (drop 12 inner) sections.request ≡ ok body
    body_long : ltb (length body) 12 ≡ false
    same_user : not (read32 body 0 == read32 inner 8) ≡ false
    is_result :
        accept (record {
          session_key = drop 12 inner;
          user_pid = read32 inner 8;
          connection_id = read32 body 4;
          check_value = read32 body 8;
        })
        ≡ ok r

  accepted :
      (now : ℕ) (ticket passwd : Bytes) (pid : ℕ) (r : Request)
      → decrypt_connect_request digest to_time now ticket passwd pid ≡ ok r
      → Accepted now ticket passwd pid r
  unfolding decrypt_connect_request
  accepted now ticket passwd pid r e =
      let (s, es, e₁) = >>=-eq-ok (split_sections ticket) _ e in
      let (i, ei, e₂) =
        >>=-eq-ok (open_sealed digest (generate_user_key digest passwd pid) s.ticket) _ e₁ in
      let (l, e₃) = throw_if-eq-ok (ltb (length i) 12) runtime _ e₂ in
      let (t, et, e₄) = >>=-eq-ok (decode_datetime to_time i) _ e₃ in
      let (n, e₅) = throw_if-eq-ok (ltb (now + ticket_leeway) t) runtime _ e₄ in
      let (b, eb, e₆) = >>=-eq-ok (open_sealed digest (drop 12 i) s.request) _ e₅ in
      let (m, e₇) = throw_if-eq-ok (ltb (length b) 12) runtime _ e₆ in
      let (u, e₈) = throw_if-eq-ok (not (read32 b 0 == read32 i 8)) runtime _ e₇ in
      record {
        sections = s;
        inner = i;
        date = t;
        body = b;
        is_split = es;
        is_open = ei;
        inner_long = l;
        is_date = et;
        in_time = n;
        is_body = eb;
        body_long = m;
        same_user = u;
        is_result = e₈;
      }

  -- What a section says to who has the key.
  abbrev pub unsealed : Bytes → Bytes → Bytes
  unsealed key d = decrypt (init key) (take (length d - 16) d)

  open_sealed-unsealed :
      (key d inner : Bytes) → open_sealed digest key d ≡ ok inner → inner ≡ unsealed key d
  unfolding open_sealed
  open_sealed-unsealed key d inner e =
      let same = bytes_eq (digest.hmac_md5 key (take (length d - 16) d)) (drop (length d - 16) d) in
      let (long, e₁) = throw_if-eq-ok (ltb (length d) 16) runtime _ e in
      let (differs, e₂) = throw_if-eq-ok (not same) runtime _ e₁ in sym (ok_injective e₂)

  -- The two sections of a request, with what they say of its result: the session key and the user
  -- stand in the first one, which the user key opens, and the session key opens the second one,
  -- which names the user again.
  pub record Granted (user_key ticket : Bytes) (r : Request) : Type 0 where
    sections : Sections
    is_split : split_sections ticket ≡ ok sections
    first : Sealed digest user_key sections.ticket
    session_key : r.session_key ≡ drop 12 (unsealed user_key sections.ticket)
    user_pid : r.user_pid ≡ read32 (unsealed user_key sections.ticket) 8
    second : Sealed digest r.session_key sections.request
    same_user : r.user_pid ≡ read32 (unsealed r.session_key sections.request) 0
    connection_id : r.connection_id ≡ read32 (unsealed r.session_key sections.request) 4
    check_value : r.check_value ≡ read32 (unsealed r.session_key sections.request) 8

  -- A request that is accepted was sealed with the user key, and its second section with the
  -- session key. The session key and the user ID are what the first section says when the user key
  -- opens it, and the connection ID and the check value what the second one says when the session
  -- key opens it, which names the same user.
  pub accepted-Granted :
      (now : ℕ) (ticket passwd : Bytes) (pid : ℕ) (r : Request)
      → decrypt_connect_request digest to_time now ticket passwd pid ≡ ok r
      → Granted (generate_user_key digest passwd pid) ticket r
  accepted-Granted now ticket passwd pid r e =
      let a = accepted now ticket passwd pid r e in
      let user_key = generate_user_key digest passwd pid in
      let inner = open_sealed-unsealed user_key a.sections.ticket a.inner a.is_open in
      let body = open_sealed-unsealed (drop 12 a.inner) a.sections.request a.body a.is_body in
      subst (Granted user_key ticket) (ok_injective a.is_result) (record {
        sections = a.sections;
        is_split = a.is_split;
        first = open_sealed-Sealed digest user_key a.sections.ticket a.inner a.is_open;
        session_key = ap (drop 12) inner;
        user_pid = ap (λ (b : Bytes). read32 b 8) inner;
        second = open_sealed-Sealed digest (drop 12 a.inner) a.sections.request a.body a.is_body;
        same_user =
            sym ((==_iff (read32 a.body 0) (read32 a.inner 8)).0 (not-not _ a.same_user))
            ∙ ap (λ (b : Bytes). read32 b 0) body;
        connection_id = ap (λ (b : Bytes). read32 b 4) body;
        check_value = ap (λ (b : Bytes). read32 b 8) body;
      })

  -- A request that is accepted once is accepted at every later time.
  pub accepted-later :
      (now later : ℕ) (ticket passwd : Bytes) (pid : ℕ) (r : Request)
      → decrypt_connect_request digest to_time now ticket passwd pid ≡ ok r
      → now ≤ later
      → decrypt_connect_request digest to_time later ticket passwd pid ≡ ok r
  unfolding decrypt_connect_request
  accepted-later now later ticket passwd pid r e h =
      let a = accepted now ticket passwd pid r e in
      bind-ok (split_sections ticket) _ a.sections a.is_split
      ∙ (bind-ok (open_sealed digest (generate_user_key digest passwd pid) a.sections.ticket) _
            a.inner a.is_open
          ∙ (throw_if-pass (ltb (length a.inner) 12) runtime _ a.inner_long
              ∙ (bind-ok (decode_datetime to_time a.inner) _ a.date a.is_date
                  ∙ (throw_if-pass (ltb (later + ticket_leeway) a.date) runtime _ (
                        still (later + ticket_leeway) (now + ticket_leeway) a.date a.in_time
                          (omega (arith, h)))
                      ∙ (bind-ok (open_sealed digest (drop 12 a.inner) a.sections.request) _ a.body
                            a.is_body
                          ∙ (throw_if-pass (ltb (length a.body) 12) runtime _ a.body_long
                              ∙ (throw_if-pass (not (read32 a.body 0 == read32 a.inner 8)) runtime _
                                    a.same_user
                                  ∙ a.is_result)))))))
