-- ===== src/Prudp/V1/Options.antt =====
-- The option loop of `PacketV1::decode`.
use splatit.Base.{
  ℕ, zero, suc, ◌≤◌, ◌<◌, ◌≡◌, arith, [], ◌∷◌, length, drop, length-drop, Result, ok, err,
  malformed, Exception, ltb, Result-cases, Bool-cases, inl, inr,
}
use splatit.Base.Bytes.{Bytes}
use splatit.Prudp.Packet.{Packet}
use splatit.Prudp.V1.{options, option_value}

-- The rounds of the loop, without fuel: on which bytes and which packet it runs, and how it ends.
-- It ends behind the last option, or throws, or takes an option with its value and goes on behind it.
pub data OptionRun : Bytes → Packet → Result Packet → Type 0 where
  behind_last : (p : Packet) → OptionRun [] p (ok p)
  lone_id : (id : ℕ) (p : Packet) → OptionRun (id ∷ []) p (err malformed)
  cut_off :
      (id len : ℕ) (v : Bytes) (p : Packet)
      → length v < len
      → OptionRun (id ∷ len ∷ v) p (err malformed)
  refused :
      (id len : ℕ) (v : Bytes) (p : Packet) (e : Exception)
      → len ≤ length v
      → option_value p id len v ≡ err e
      → OptionRun (id ∷ len ∷ v) p (err e)
  taken :
      (id len : ℕ) (v : Bytes) (p q : Packet) (r : Result Packet)
      → len ≤ length v
      → option_value p id len v ≡ ok q
      → OptionRun (drop len v) q r
      → OptionRun (id ∷ len ∷ v) p r

-- With fuel for the bytes, the result of the option loop is the one that its rounds come to, none
-- of which needs fuel.
pub options-OptionRun :
    (n : ℕ) (v : Bytes) (p : Packet) → length v ≤ n → OptionRun v p (options n v p)
unfolding options
options-OptionRun zero [] p h = behind_last p
options-OptionRun zero (id ∷ v) p h = absurd (omega arith)
options-OptionRun (suc n) [] p h = behind_last p
options-OptionRun (suc n) (id ∷ []) p h = lone_id id p
options-OptionRun (suc n) (id ∷ len ∷ v) p h = elim (Bool-cases (ltb (length v) len)) [
  | inl short ↦ rw short (cut_off id len v p (ground arith))
  | inr long ↦ rw long (elim (Result-cases (option_value p id len v)) [
    | inr (x, e) ↦ rw e (refused id len v p x (ground arith) e)
    | inl (q, e) ↦ rw e (
        taken id len v p q (options n (drop len v) q) (ground arith) e
          (options-OptionRun n (drop len v) q (omega (arith, length-drop len v))))
  ])
]
