-- ===== src/Nex/Containers.antt =====
-- `List<T>` and `Map<K, T>` of nex/types/common: list.hpp and map.hpp. What `reserve` does when the
-- memory runs out is left out.
use splatit.Base.{
  ℕ, zero, suc, ◌+◌, ◌^◌, ◌≤◌, ◌<◌, ◌≡◌, refl, arith, Bool, List, [], ◌∷◌, ◌++◌, length, drop, ltb,
  if◌then◌else◌, ok, ◌>>=◌, ◌>>◌, throw_if, throw_if-eq-ok, >>=-eq-ok, malformed, Result,
  throw_if-pass, ge→ltb, length-append, length-drop, ap, ap₂, sym, ◌∙◌, append_assoc, append-nil,
  drop-length_append, All,
}
use splatit.Base.Bytes.{Bytes}
use splatit.Nex.{Codec, RoundTrips, StaysInside, ok_injective}
use splatit.Nex.Ints.{little, number, number-little}

module _ {A : Type 0} (item : Codec A) where
  -- The loop of `List::encode`.
  unfoldable pub encode_items : List A → Bytes
  encode_items [] = []
  encode_items (v ∷ vs) = item.encode v ++ encode_items vs

  -- The loop of `List::decode`: new items go behind those that the list has.
  unfoldable pub decode_items : ℕ → List A → Bytes → Result (List A × ℕ)
  decode_items zero vs d = ok (vs, 0)
  decode_items (suc count) vs d = item.decode item.blank d >>= λ (r : A × ℕ).
      (decode_items count (vs ++ r.0 ∷ []) (drop r.1 d) >>= λ (q : List A × ℕ). ok (q.0, r.1 + q.1))

  unfoldable pub list_decode : List A → Bytes → Result (List A × ℕ)
  list_decode vs d =
      throw_if (ltb (length d) 4) malformed
      >> (decode_items (number 4 d) vs (drop 4 d) >>= λ (q : List A × ℕ). ok (q.0, 4 + q.1))

  -- `List::encode` and `List::decode`
  abbrev pub list : Codec (List A)
  list = record {
    blank = [];
    encode = λ vs. little 4 (length vs) ++ encode_items vs;
    decode = list_decode;
  }

  decode_items-encode_items :
      {Good : A → Type 0}
      → RoundTrips item Good
      → (vs old : List A) (rest : Bytes) → All Good vs
      → decode_items (length vs) old (encode_items vs ++ rest)
        ≡ ok (old ++ vs, length (encode_items vs))
  unfolding decode_items encode_items
  decode_items-encode_items trips [] old rest good = rw (append-nil old) refl
  decode_items-encode_items trips (v ∷ vs) old rest good =
      let behind = encode_items vs ++ rest in
      rw (append_assoc (item.encode v) (encode_items vs) rest, trips v behind good.0)
        (rw
          (
            drop-length_append (item.encode v) behind,
            decode_items-encode_items trips vs (old ++ v ∷ []) rest good.1,
          )
          (ap₂ (λ (x : List A) (y : ℕ). ok (x, y)) (append_assoc old (v ∷ []) vs)
            (sym (length-append (item.encode v) (encode_items vs)))))

  -- A list that is decoded into goes on behind what it holds.
  pub list-decode-encode :
      {Good : A → Type 0}
      → RoundTrips item Good
      → (old vs : List A) (rest : Bytes) → All Good vs
      → length vs < 2 ^ 32
      → list.decode old (list.encode vs ++ rest) ≡ ok (old ++ vs, length (list.encode vs))
  unfolding list_decode
  list-decode-encode trips old vs rest good small =
      let behind = encode_items vs ++ rest in
      let d = little 4 (length vs) ++ behind in
      throw_if-pass (ltb (length d) 4) malformed _ (ge→ltb _ _ (omega arith))
      ∙ rw
          (
            number-little 4 (length vs) behind small,
            decode_items-encode_items trips vs old rest good,
          )
          (ap (λ (n : ℕ). ok (old ++ vs, n)) (omega arith))

  decode_items-inside :
      StaysInside item
      → (count : ℕ) (old vs : List A) (d : Bytes) (n : ℕ) → decode_items count old d ≡ ok (vs, n)
      → n ≤ length d
  unfolding decode_items
  decode_items-inside inside zero old vs d n returns =
      omega (arith, ap (λ w. w.1) (ok_injective returns))
  decode_items-inside inside (suc count) old vs d n returns =
      let r = >>=-eq-ok (item.decode item.blank d) _ returns in
      let q = >>=-eq-ok (decode_items count (old ++ r.0.0 ∷ []) (drop r.0.1 d)) _ r.2 in
      omega (
        arith,
        ap (λ w. w.1) (ok_injective q.2),
        inside item.blank r.0.0 d r.0.1 r.1,
        decode_items-inside inside count (old ++ r.0.0 ∷ []) q.0.0 (drop r.0.1 d) q.0.1 q.1,
        length-drop r.0.1 d,
      )

  pub list-StaysInside : StaysInside item → StaysInside list
  unfolding list_decode
  list-StaysInside inside old vs d n returns =
      let one = throw_if-eq-ok (ltb (length d) 4) malformed _ returns in
      let q = >>=-eq-ok (decode_items (number 4 d) old (drop 4 d)) _ one.1 in
      ground (
        arith,
        one.0,
        ap (λ w. w.1) (ok_injective q.2),
        decode_items-inside inside (number 4 d) old q.0.0 (drop 4 d) q.0.1 q.1,
        length-drop 4 d,
      )

-- A `std::map` as the list of its entries in the order of the keys.
module _ {K V : Type 0} (less : K → K → Bool) where
  -- `data.insert({key, value})`, which keeps the value of a key that is there.
  unfoldable pub map_insert : K → V → List (K × V) → List (K × V)
  map_insert k v [] = (k, v) ∷ []
  map_insert k v ((j, w) ∷ m) =
      let rest = map_insert k v m in
      if less k j then (k, v) ∷ (j, w) ∷ m else if less j k then (j, w) ∷ rest else (j, w) ∷ m

  module _ (key : Codec K) (value : Codec V) where
    -- The loop of `Map::encode`.
    unfoldable pub encode_entries : List (K × V) → Bytes
    encode_entries [] = []
    encode_entries ((k, v) ∷ m) = key.encode k ++ (value.encode v ++ encode_entries m)

    -- The loop of `Map::decode`.
    unfoldable pub decode_entries : ℕ → List (K × V) → Bytes → Result (List (K × V) × ℕ)
    decode_entries zero m d = ok (m, 0)
    decode_entries (suc count) m d = key.decode key.blank d >>= λ (r : K × ℕ).
        (value.decode value.blank (drop r.1 d) >>= λ (s : V × ℕ).
        (decode_entries count (map_insert r.0 s.0 m) (drop (r.1 + s.1) d)
          >>= λ (q : List (K × V) × ℕ). ok (q.0, r.1 + s.1 + q.1)))

    -- The entries are read from the first byte of the data, which is the length's.
    unfoldable pub map_decode : List (K × V) → Bytes → Result (List (K × V) × ℕ)
    map_decode m d =
        throw_if (ltb (length d) 4) malformed
        >> (decode_entries (number 4 d) m d >>= λ (q : List (K × V) × ℕ). ok (q.0, 4 + q.1))

    -- `Map::encode` and `Map::decode`. The size is the first argument of the constructor
    -- `Int(uint8_t minorVersion, T value = 0)`, so the value that is written is 0.
    abbrev pub map_of : Codec (List (K × V))
    map_of = record {
      blank = [];
      encode = λ m. little 4 0 ++ encode_entries m;
      decode = map_decode;
    }

    -- Whatever a map held, what it wrote is read as no entry at all, and only the length is used.
    pub map-forgets :
        (old m : List (K × V)) (rest : Bytes)
        → map_of.decode old (map_of.encode m ++ rest) ≡ ok (old, 4)
    unfolding map_decode decode_entries
    map-forgets old m rest =
        throw_if-pass (ltb (length (map_of.encode m ++ rest)) 4) malformed _
          (ge→ltb _ _ (omega arith))
