-- ===== src/Packets/Parsed.antt =====
-- cubic-server/protocol/PacketUtils.hpp: `parse`, which reads the fields of a packet one after the
-- other. What it leaves of the buffer is not looked at.
use cubic_server.Common.{ℕ, Bool, if◌then◌else◌, List, ◌≡◌, ◌≢◌, ap, Result, ok, err, undefined}
use cubic_server.Protocol.Types.{U128}
use cubic_server.Protocol.Cursor.{Pop, ◌>>=◌, bind_ok, pure}
use cubic_server.Protocol.InBounds.{StaysInBounds, InBounds, if-StaysInBounds, pure-StaysInBounds}

abbrev value_of {ℓ} : {A : Type ℓ} → Result (A × List ℕ) → Result A
value_of (ok (a, rest)) = ok a
value_of (err e) = err e

abbrev pub parsed {ℓ} : {A : Type ℓ} → Pop A → List ℕ → Result A
parsed pop buffer = value_of (pop buffer)

-- Fields that are parsed under an `if`; the others keep what the packet was made with.
abbrev pub optional {ℓ} : {A : Type ℓ} → Bool → Pop A → A → Pop A
optional there pop a = if there then pop else pure a

-- `u128 {}`
abbrev pub zero_uuid : U128
zero_uuid = record { most = 0; least = 0 }

-- A field that is read hands its value and the rest of the buffer on.
pub field_ok {ℓ κ} :
    {A : Type ℓ} {B : Type κ} (m : Pop A) (f : A → Pop B) (bs : List ℕ) {a : A} {rest : List ℕ}
    → m bs ≡ ok (a, rest)
    → parsed (m >>= f) bs ≡ parsed (f a) rest
field_ok m f bs e = ap value_of (bind_ok m f bs e)

-- No read goes past the last byte.
abbrev pub Safe {ℓ} : {A : Type ℓ} → (List ℕ → Result A) → Type ℓ
Safe parse = (buffer : List ℕ) → parse buffer ≢ err undefined

result-InBounds {ℓ} :
    {A : Type ℓ} (bs : List ℕ) (r : Result (A × List ℕ))
    → InBounds bs r
    → value_of r ≢ err undefined
result-InBounds bs (ok (a, rest)) h e = cc
result-InBounds bs (err x) h e = h (cc)

pub parsed-Safe {ℓ} : {A : Type ℓ} (pop : Pop A) → StaysInBounds pop → Safe (parsed pop)
parsed-Safe pop h buffer = result-InBounds buffer (pop buffer) (h buffer)

pub optional-StaysInBounds {ℓ} :
    {A : Type ℓ} (there : Bool) (pop : Pop A) (a : A)
    → StaysInBounds pop
    → StaysInBounds (optional there pop a)
optional-StaysInBounds there pop a h = if-StaysInBounds there pop (pure a) h (pure-StaysInBounds a)
