-- ===== src/Packets/Fronts.antt =====
-- cubic-server/protocol/ServerPackets.cpp: a field in the wire format stands in front of what
-- follows it.
use cubic_server.Common.{
  ℕ, ◌≡◌, refl, ap, ◌∙◌, Bool, true, false, List, [], ◌∷◌, ◌++◌, append_assoc, length,
}
use cubic_server.Protocol.Add.{add_var_int}
use cubic_server.Packets.Wire.{put_each, put_byte, put_string, put_array, put_optional}

-- What follows a field is not looked at.
abbrev pub Fronts : {A : Type 0} → (A → List ℕ → List ℕ) → Type 0
Fronts {A = A} put = (a : A) (bs rest : List ℕ) → put a bs ++ rest ≡ put a (bs ++ rest)

pub each-Fronts : {A : Type 0} (put : A → List ℕ → List ℕ) → Fronts put → Fronts (put_each put)
unfolding put_each
each-Fronts put h [] bs rest = refl
each-Fronts put h (x ∷ xs) bs rest =
    h x (put_each put xs bs) rest ∙ ap (put x) (each-Fronts put h xs bs rest)

pub array-Fronts : {A : Type 0} (put : A → List ℕ → List ℕ) → Fronts put → Fronts (put_array put)
array-Fronts put h xs bs rest =
    append_assoc (add_var_int [] (length xs)) (put_each put xs bs) rest
    ∙ ap (λ (t : List ℕ). add_var_int [] (length xs) ++ t) (each-Fronts put h xs bs rest)

pub optional-Fronts :
    {A : Type 0} (there : Bool) (put : A → List ℕ → List ℕ)
    → Fronts put
    → Fronts (put_optional there put)
optional-Fronts true put h a bs rest = h a bs rest
optional-Fronts false put h a bs rest = refl

pub byte-Fronts : Fronts put_byte
byte-Fronts v bs rest = refl

pub string-Fronts : Fronts put_string
string-Fronts s bs rest = append_assoc (add_var_int [] (length s) ++ s) bs rest
