-- ===== src/Protocol/Cursor.antt =====
-- The pair of pointers `at` and `eof` of the pop functions. `eof` points at the last byte, so the
-- pair is the list of the bytes from `at` to `eof`, both included: `eof - at < n` says that the list
-- holds at most n bytes. A pop function returns its value with the bytes behind it.
use cubic_server.Common.{ℕ, List, [], ◌++◌, ◌≡◌, Result, ok, err}

abbrev pub Pop {ℓ} : Type ℓ → Type ℓ
Pop A = List ℕ → Result (A × List ℕ)

abbrev pub pure {ℓ} : {A : Type ℓ} → A → Pop A
pure a bs = ok (a, bs)

infixl 5 ◌>>=◌
abbrev pub ◌>>=◌ {ℓ κ} : {A : Type ℓ} {B : Type κ} → Pop A → (A → Pop B) → Pop B
◌>>=◌ m f bs = elim (m bs) [ ok (a, rest) ↦ f a rest | err e ↦ err e ]

-- A step that succeeds hands its value and the rest of the input on.
pub bind_ok {ℓ κ} :
    {A : Type ℓ} {B : Type κ} (m : Pop A) (f : A → Pop B) (bs : List ℕ) {a : A} {rest : List ℕ}
    → m bs ≡ ok (a, rest)
    → (m >>= f) bs ≡ f a rest
bind_ok m f bs e = rw (e, ◌>>=◌)

-- What an add function and a pop function of one type owe each other: the add function appends, and
-- the pop function reads the value back and stops behind it.
pub record Codec {ℓ} (A : Type ℓ) : Type (ℓ + 1) where
  pub add : List ℕ → A → List ℕ
  pub pop : Pop A
  pub Valid : A → Type 0
  pub add-append : (out : List ℕ) (a : A) → Valid a → add out a ≡ out ++ add [] a
  pub pop-add : (a : A) (rest : List ℕ) → Valid a → pop (add [] a ++ rest) ≡ ok (a, rest)
