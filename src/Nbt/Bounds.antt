-- ===== src/Nbt/Bounds.antt =====
-- The parts of the parse functions on any input: no read past the last byte, and progress.
use cubic_server.Common.{
  ℕ, zero, suc, ◌+◌, ◌-◌, ◌*◌, ◌^◌, ◌≤◌, ◌≡◌, ◌≢◌, refl, inl, inr, List, [], ◌∷◌, arith, length,
  ltb, leb, ltb→le, ◌==◌, Bool, true, false, Bool-cases, if◌then◌else◌, undefined,
}
use cubic_server.Nbt.Parser.{
  Parsed, parsed, null, thrown, stuck, Parse, pure, ◌>>=◌, ◌>>◌, need, next, read_be, read_or,
  read_size, read_bytes, read_words, parse_name, expect_type, tag_head, read_length, need_elements,
  rounds,
}

-- A result after at least k bytes of the input, or none; the loop ended, and any exception is one
-- that the code throws or an overflow of a length.
abbrev pub Fine {ℓ} : {A : Type ℓ} → ℕ → List ℕ → Parsed A → Type 0
Fine k bs (parsed a rest) = k + length rest ≤ length bs
Fine k bs null = Unit {0}
Fine k bs (thrown e) = e ≢ undefined
Fine k bs stuck = ⊥

pub Fine-mono {ℓ} :
    {A : Type ℓ} (j k : ℕ) (bs cs : List ℕ) (r : Parsed A)
    → j + length cs ≤ k + length bs
    → Fine k cs r
    → Fine j bs r
Fine-mono j k bs cs (parsed a rest) h p = omega arith
Fine-mono j k bs cs null h p = tt
Fine-mono j k bs cs (thrown e) h p = p
Fine-mono j k bs cs stuck h p = elim p [ ]

pub Fine-bind {ℓ κ} :
    {A : Type ℓ} {B : Type κ} (k j t : ℕ) (bs : List ℕ) (m : Parse A) (f : A → Parse B)
    → t ≤ k + j
    → Fine k bs (m bs)
    → ((a : A) (rest : List ℕ) → k + length rest ≤ length bs → Fine j rest (f a rest))
    → Fine t bs ((m >>= f) bs)
Fine-bind {A = A} k j t bs m f total p q = go (m bs) p
  where
    go :
        (r : Parsed A)
        → Fine k bs r
        → Fine t bs (elim r [
          | parsed a rest ↦ f a rest
          | null ↦ null
          | thrown e ↦ thrown e
          | stuck ↦ stuck
        ])
    go (parsed a rest) h = Fine-mono t j bs rest (f a rest) (omega arith) (q a rest h)
    go null h = tt
    go (thrown e) h = h
    go stuck h = elim h [ ]

need-Fine {ℓ} :
    {A : Type ℓ} (n j : ℕ) (bs : List ℕ) (m : Parse A)
    → (n ≤ length bs → Fine j bs (m bs))
    → Fine j bs ((need n >> m) bs)
unfolding need
need-Fine n j bs m h = elim (Bool-cases (ltb (length bs) n)) [
  | inl short ↦ rw (short, Fine) tt
  | inr enough ↦ rw (enough, Fine) (h (ltb→le (length bs) n enough))
]

-- A read of n bytes that are there, no more and no fewer.
abbrev pub Takes {ℓ} : {A : Type ℓ} → ℕ → List ℕ → Parsed A → Type ℓ
Takes {A = A} n bs r =
    (a : A) × (rest : List ℕ) × (r ≡ parsed a rest) × (n + length rest ≡ length bs)

pub Takes-Fine {ℓ} : {A : Type ℓ} (n : ℕ) (bs : List ℕ) (r : Parsed A) → Takes n bs r → Fine n bs r
Takes-Fine n bs r (a, rest, e, h) = rw e (omega arith)

-- Exact reads, one behind the other.
Takes-bind {ℓ κ} :
    {A : Type ℓ} {B : Type κ} (n k t : ℕ) (bs : List ℕ) (m : Parse A) (f : A → Parse B)
    → t ≡ n + k
    → Takes n bs (m bs)
    → ((a : A) (rest : List ℕ) → n + length rest ≡ length bs → Takes k rest (f a rest))
    → Takes t bs ((m >>= f) bs)
Takes-bind n k t bs m f total (a, rest, e, h) q =
    let (b, rest', e', h') = q a rest h in (b, rest', rw (e, ◌>>=◌) e', omega arith)

pub next-Takes : (bs : List ℕ) → 1 ≤ length bs → Takes 1 bs (next bs)
unfolding next
next-Takes [] h = absurd (omega arith)
next-Takes (b ∷ bs) h = (b, bs, refl, omega arith)

pub read_be-Takes : (w n v : ℕ) (bs : List ℕ) → n ≤ length bs → Takes n bs (read_be w n v bs)
unfolding read_be
read_be-Takes w zero v bs h = (v, bs, refl, omega arith)
read_be-Takes w (suc n) v bs h =
    Takes-bind 1 n (suc n) bs next _ (omega arith) (next-Takes bs (omega arith))
      (λ b rest p. read_be-Takes w n _ rest (omega arith))

pub read_or-Takes : (w n v : ℕ) (bs : List ℕ) → n ≤ length bs → Takes n bs (read_or w n v bs)
unfolding read_or
read_or-Takes w zero v bs h = (v, bs, refl, omega arith)
read_or-Takes w (suc n) v bs h =
    Takes-bind 1 n (suc n) bs next _ (omega arith) (next-Takes bs (omega arith))
      (λ b rest p. read_or-Takes w n _ rest (omega arith))

pub read_size-Takes : (bs : List ℕ) → 2 ≤ length bs → Takes 2 bs (read_size bs)
unfolding read_size
read_size-Takes bs h = Takes-bind 1 1 2 bs next _ refl (next-Takes bs (omega arith)) (λ hi rest p.
    Takes-bind 1 0 1 rest next _ refl (next-Takes rest (omega arith))
      (λ lo rest' p'. (_, rest', refl, omega arith)))

pub read_bytes-Takes : (n : ℕ) (bs : List ℕ) → n ≤ length bs → Takes n bs (read_bytes n bs)
unfolding read_bytes
read_bytes-Takes zero bs h = ([], bs, refl, omega arith)
read_bytes-Takes (suc n) bs h =
    Takes-bind 1 n (suc n) bs next _ (omega arith) (next-Takes bs (omega arith)) (λ b rest p.
      Takes-bind n 0 n rest (read_bytes n) _ (omega arith) (read_bytes-Takes n rest (omega arith))
        (λ vs rest' p'. (_, rest', refl, omega arith)))

pub read_words-Takes :
    (w k n : ℕ) (bs : List ℕ) → n * k ≤ length bs → Takes (n * k) bs (read_words w k n bs)
unfolding read_words
read_words-Takes w k zero bs h = ([], bs, refl, omega arith)
read_words-Takes w k (suc n) bs h =
    Takes-bind k (n * k) (suc n * k) bs (read_be w k 0) _ (omega arith)
      (read_be-Takes w k 0 bs (omega arith))
      (λ v rest p.
        Takes-bind (n * k) 0 (n * k) rest (read_words w k n) _ (omega arith)
          (read_words-Takes w k n rest (omega arith))
          (λ vs rest' p'. (_, rest', refl, omega arith)))

-- A guarded exact read.
pub guarded-Fine {ℓ κ} :
    {A : Type ℓ} {B : Type κ} (n j t : ℕ) (bs : List ℕ) (m : Parse A) (f : A → Parse B)
    → t ≤ n + j
    → (n ≤ length bs → Takes n bs (m bs))
    → ((a : A) (rest : List ℕ) → n + length rest ≤ length bs → Fine j rest (f a rest))
    → Fine t bs ((need n >> (m >>= f)) bs)
guarded-Fine n j t bs m f total take q =
    need-Fine n t bs (m >>= f)
      (λ h. Fine-bind n j t bs m f total (Takes-Fine n bs (m bs) (take h)) q)

pub read_length-Fine : (bs : List ℕ) → Fine 4 bs (read_length bs)
unfolding read_length
read_length-Fine bs =
    need-Fine 4 4 bs (read_be 32 4 0) (λ h. Takes-Fine 4 bs _ (read_be-Takes 32 4 0 bs h))

-- Behind the test of an array's length, as many bytes are there as its rounds will read.
pub need_elements-Fine {ℓ} :
    {A : Type ℓ} (width size j : ℕ) (bs : List ℕ) (m : Parse A)
    → (rounds size * width ≤ length bs → Fine j bs (m bs))
    → Fine j bs ((need_elements width size >> m) bs)
unfolding need_elements
need_elements-Fine width size j bs m h = elim (Bool-cases (leb (2 ^ 31) size)) [
  | inl negative ↦ elim (Bool-cases (ltb (2 ^ 31) ((2 ^ 32 - size) * width + 1))) [
    | inl over ↦ rw (negative, over, Fine) (λ e. cc)
    | inr fits ↦ rw (negative, fits, Fine) (h (rw negative (omega arith)))
  ]
  | inr positive ↦ elim (Bool-cases (leb (2 ^ 31) (size * width))) [
    | inl over ↦ rw (positive, over, Fine) (λ e. cc)
    | inr fits ↦
        rw (positive, fits, Fine) (need-Fine (size * width) j bs m (λ p. h (rw positive p)))
  ]
]

if-Fine {ℓ} :
    {A : Type ℓ} (k : ℕ) (bs : List ℕ) (b : Bool) (m n : Parse A)
    → Fine k bs (m bs)
    → Fine k bs (n bs)
    → Fine k bs ((if b then m else n) bs)
if-Fine k bs true m n p q = p
if-Fine k bs false m n p q = q

parse_name-Fine : (bs : List ℕ) → Fine 0 bs (parse_name bs)
unfolding parse_name
parse_name-Fine bs =
    guarded-Fine 2 0 0 bs read_size _ (omega arith) (read_size-Takes bs)
      (λ size rest p. sized size rest)
  where
    sized :
        (size : ℕ) (rest : List ℕ)
        → Fine 0 rest ((if size == 0 then pure [] else (need size >> read_bytes size)) rest)
    sized size rest =
        if-Fine 0 rest (size == 0) (pure []) (need size >> read_bytes size) (omega arith) (
          need-Fine size 0 rest (read_bytes size) (λ h.
            Fine-mono 0 size rest rest _ (omega arith)
              (Takes-Fine size rest _ (read_bytes-Takes size rest h))))

-- Outside a list the head of a tag takes its type byte at least.
abbrev pub head_bytes : Bool → ℕ
head_bytes true = 0
head_bytes false = 1

expect_type-Fine : (type : ℕ) (bs : List ℕ) → 1 ≤ length bs → Fine 1 bs (expect_type type bs)
unfolding expect_type
expect_type-Fine type [] h = absurd (omega arith)
expect_type-Fine type (b ∷ bs) h = elim (Bool-cases (b == type)) [
  | inl same ↦ rw (same, Fine) (omega arith)
  | inr other ↦ rw (other, Fine) tt
]

pub tag_head-Fine :
    (type : ℕ) (include_name in_list : Bool) (bs : List ℕ)
    → Fine (head_bytes in_list) bs (tag_head type include_name in_list bs)
unfolding tag_head
tag_head-Fine type include_name in_list bs = need-Fine 1 (head_bytes in_list) bs _ (λ h.
    Fine-bind (head_bytes in_list) 0 (head_bytes in_list) bs
      (if in_list then pure tt else expect_type type) _ (omega arith) (type_read in_list h)
      (λ _ rest p.
        if-Fine 0 rest include_name parse_name (pure []) (parse_name-Fine rest) (omega arith)))
  where
    type_read :
        (in_list : Bool)
        → 1 ≤ length bs
        → Fine (head_bytes in_list) bs ((if in_list then pure tt else expect_type type) bs)
    type_read true h = omega arith
    type_read false h = expect_type-Fine type bs h
