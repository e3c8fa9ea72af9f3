-- ===== src/Nex/Laws.antt =====
-- The laws of the codecs as records, so that the laws of a class follow the list of its fields.
use splatit.Base.{ℕ, ◌+◌, ◌^◌, ◌<◌, ◌≡◌, length, [], All}
use splatit.Nex.{
  Codec, RoundTrips, StaysInside, ◌⊗◌, class_of, class_of-RoundTrips, class_of-StaysInside,
  pair-RoundTrips, pair-StaysInside,
}
use splatit.Nex.Ints.{int, int-RoundTrips, int-StaysInside}
use splatit.Nex.Text.{
  string, buffer_of, string-RoundTrips, string-StaysInside, buffer-RoundTrips, buffer-StaysInside,
}
use splatit.Nex.Containers.{list, list-decode-encode, list-StaysInside}
use splatit.Nex.Values.{Calendar, IsWhole, datetime, datetime-RoundTrips, datetime-StaysInside}
use splatit.Nex.Holder.{
  any_data_holder, Holds, any_data_holder-RoundTrips, any_data_holder-StaysInside,
}
use splatit.Nex.Structure.{
  structure, data_class, structure-RoundTrips, structure-StaysInside, data_class-RoundTrips,
  data_class-StaysInside,
}

pub record Reads {A : Type 0} (c : Codec A) (Good : A → Type 0) : Type 0 where
  pub back : RoundTrips c Good

pub record Bounded {A : Type 0} (c : Codec A) : Type 0 where
  pub inside : StaysInside c

infixr 60 ◌also◌ ◌beside◌
pub ◌also◌ :
    {A B : Type 0} {a : Codec A} {b : Codec B} {P : A → Type 0} {Q : B → Type 0}
    → Reads a P
    → Reads b Q
    → Reads (a ⊗ b) (λ v. P v.0 × Q v.1)
◌also◌ {a = a} {b = b} p q = record { back = pair-RoundTrips a b p.back q.back }

pub ◌beside◌ : {A B : Type 0} {a : Codec A} {b : Codec B} → Bounded a → Bounded b → Bounded (a ⊗ b)
◌beside◌ {a = a} {b = b} p q = record { inside = pair-StaysInside a b p.inside q.inside }

pub class-Reads :
    {A B : Type 0} {c : Codec A} {P : A → Type 0} (make : A → B) (fields : B → A)
    → ((a : A) → fields (make a) ≡ a)
    → ((b : B) → make (fields b) ≡ b)
    → Reads c P
    → Reads (class_of c make fields) (λ b. P (fields b))
class-Reads {c = c} make fields there back p = record {
  back = class_of-RoundTrips c make fields there back p.back;
}

pub class-Bounded :
    {A B : Type 0} {c : Codec A} (make : A → B) (fields : B → A)
    → Bounded c
    → Bounded (class_of c make fields)
class-Bounded {c = c} make fields p = record {
  inside = class_of-StaysInside c make fields p.inside;
}

pub data-Reads :
    {A : Type 0} {c : Codec A} {P : A → Type 0} (minor_version version : ℕ)
    → minor_version < 3
    → Reads c P
    → Reads (data_class minor_version version c) P
data-Reads {c = c} minor_version version low p = record {
  back = data_class-RoundTrips minor_version version c low p.back;
}

pub data-Bounded :
    {A : Type 0} {c : Codec A} (minor_version version : ℕ)
    → Bounded c
    → Bounded (data_class minor_version version c)
data-Bounded {c = c} minor_version version p = record {
  inside = data_class-StaysInside minor_version version c p.inside;
}

pub structure-Reads :
    {A : Type 0} {c : Codec A} {P : A → Type 0} (minor_version version : ℕ)
    → Reads c P
    → Reads (structure minor_version version c) (λ v. P v × (length (c.encode v) < 2 ^ 32))
structure-Reads {c = c} minor_version version p = record {
  back = structure-RoundTrips minor_version version c p.back;
}

pub structure-Bounded :
    {A : Type 0} {c : Codec A} (minor_version version : ℕ)
    → Bounded c
    → Bounded (structure minor_version version c)
structure-Bounded {c = c} minor_version version p = record {
  inside = structure-StaysInside minor_version version c p.inside;
}

pub int-Reads : (width : ℕ) → Reads (int width) (λ v. v < 256 ^ width)
int-Reads width = record { back = int-RoundTrips width }

pub int-Bounded : (width : ℕ) → Bounded (int width)
int-Bounded width = record { inside = int-StaysInside width }

pub string-Reads : Reads string (λ v. length v + 1 < 65536)
string-Reads = record { back = string-RoundTrips }

pub string-Bounded : Bounded string
string-Bounded = record { inside = string-StaysInside }

pub buffer-Reads : (width : ℕ) → Reads (buffer_of width) (λ v. length v < 256 ^ width)
buffer-Reads width = record { back = buffer-RoundTrips width }

pub buffer-Bounded : (width : ℕ) → Bounded (buffer_of width)
buffer-Bounded width = record { inside = buffer-StaysInside width }

pub list-Reads :
    {A : Type 0} {c : Codec A} {P : A → Type 0}
    → Reads c P
    → Reads (list c) (λ vs. All P vs × (length vs < 2 ^ 32))
list-Reads {c = c} p = record {
  back = λ vs rest good. list-decode-encode c p.back [] vs rest good.0 good.1;
}

pub list-Bounded : {A : Type 0} {c : Codec A} → Bounded c → Bounded (list c)
list-Bounded {c = c} p = record { inside = list-StaysInside c p.inside }

pub datetime-Reads :
    {Time : Type 0} (calendar : Calendar Time) → Reads (datetime calendar) (IsWhole calendar)
datetime-Reads calendar = record { back = datetime-RoundTrips calendar }

pub datetime-Bounded : {Time : Type 0} (calendar : Calendar Time) → Bounded (datetime calendar)
datetime-Bounded calendar = record { inside = datetime-StaysInside calendar }

pub holder-Reads : Reads any_data_holder Holds
holder-Reads = record { back = any_data_holder-RoundTrips }

pub holder-Bounded : Bounded any_data_holder
holder-Bounded = record { inside = any_data_holder-StaysInside }
