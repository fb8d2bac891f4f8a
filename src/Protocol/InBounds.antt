-- ===== src/Protocol/InBounds.antt =====
-- Reads that stay within their input, and how they are put together.
use cubic_server.Common.{
  ℕ, ◌≡◌, ◌≢◌, refl, sym, Bool, true, false, List, [], ◌++◌, append_assoc, if◌then◌else◌, Result,
  ok, err, undefined,
}
use cubic_server.Protocol.Cursor.{Pop, pure, ◌>>=◌}

-- A value comes with a tail of the input, and an exception is one that the code throws: no read
-- went past the last byte.
abbrev pub InBounds {ℓ} : {A : Type ℓ} → List ℕ → Result (A × List ℕ) → Type 0
InBounds bs (ok (a, rest)) = (used : List ℕ) × (bs ≡ used ++ rest)
InBounds bs (err e) = e ≢ undefined

abbrev pub StaysInBounds {ℓ} : {A : Type ℓ} → Pop A → Type 0
StaysInBounds pop = (bs : List ℕ) → InBounds bs (pop bs)

pub InBounds-prefix {ℓ} :
    {A : Type ℓ} (used mid : List ℕ) (r : Result (A × List ℕ))
    → InBounds mid r
    → InBounds (used ++ mid) r
InBounds-prefix used mid (ok (a, rest)) (more, e) =
    (used ++ more, rw e (sym (append_assoc used more rest)))
InBounds-prefix used mid (err e) h = h

InBounds-bind {ℓ κ} :
    {A : Type ℓ} {B : Type κ} (bs : List ℕ) (r : Result (A × List ℕ)) (f : A → Pop B)
    → InBounds bs r
    → ((a : A) → StaysInBounds (f a))
    → InBounds bs (elim r [ ok (a, rest) ↦ f a rest | err e ↦ err e ])
InBounds-bind bs (ok (a, rest)) f (used, e) h =
    rw e (InBounds-prefix used rest (f a rest) (h a rest))
InBounds-bind bs (err e) f n h = n

pub bind-StaysInBounds {ℓ κ} :
    {A : Type ℓ} {B : Type κ} (m : Pop A) (f : A → Pop B)
    → StaysInBounds m
    → ((a : A) → StaysInBounds (f a))
    → StaysInBounds (m >>= f)
bind-StaysInBounds m f hm hf bs = InBounds-bind bs (m bs) f (hm bs) hf

pub pure-StaysInBounds {ℓ} : {A : Type ℓ} (a : A) → StaysInBounds (pure a)
pure-StaysInBounds a bs = ([], refl)

pub InBounds-if {ℓ} :
    {A : Type ℓ} (bs : List ℕ) (b : Bool) (r s : Result (A × List ℕ))
    → InBounds bs r
    → InBounds bs s
    → InBounds bs (if b then r else s)
InBounds-if bs true r s hr hs = hr
InBounds-if bs false r s hr hs = hs

pub if-StaysInBounds {ℓ} :
    {A : Type ℓ} (b : Bool) (m n : Pop A)
    → StaysInBounds m
    → StaysInBounds n
    → StaysInBounds (if b then m else n)
if-StaysInBounds true m n hm hn = hm
if-StaysInBounds false m n hm hn = hn
