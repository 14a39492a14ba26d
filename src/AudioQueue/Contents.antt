-- ===== src/AudioQueue/Contents.antt =====
-- The blocks that a ring holds, oldest first, and how they follow its two indices.
use sonotide.Prelude.{
  ℕ, zero, suc, ◌+◌, ◌-◌, ◌%◌, ◌≤◌, ◌<◌, ◌≡◌, refl, sym, ap, ◌∙◌, ◌≢◌, ◌↔◌, ◌⊎◌, inl, inr, List, [],
  ◌∷◌, ◌++◌, length, set, get_or-set_self, get_or-set_ne, length-set, take, leb, if◌then◌else◌,
  arith,
}
use native.Mathlib.Nat.{mod-eq_of_lt, mod_self}
use native.Mathlib.Decide.{dec_lt}
use sonotide.AudioQueue.{DecodedMetadata, Slot, fresh_slot, slot_at, increment}

pub record Block (A : Type 0) : Type 0 where
  pub samples : List A
  pub metadata : DecodedMetadata

-- How many steps lead from one index of a ring of `n` slots to another.
pub distance : ℕ → ℕ → ℕ → ℕ
distance n i j = if leb i j then j - i else j + n - i

pub increment_cases :
    (n i : ℕ) → i < n → ((i + 1 < n) × ((i + 1) % n ≡ i + 1)) ⊎ ((i + 1 ≡ n) × ((i + 1) % n ≡ 0))
increment_cases n i h = elim (dec_lt (i + 1) n) [
  | yes below ↦ inl (below, mod-eq_of_lt below)
  | no last ↦ let wrapped : i + 1 ≡ n = omega arith in inr (wrapped, rw wrapped (mod_self n))
]

-- A step forward comes one nearer to any other index, and stays in the ring.
pub distance-increment :
    (n i j : ℕ)
    → i < n
    → j < n
    → i ≢ j
    → (distance n i j ≡ suc (distance n ((i + 1) % n) j)) × ((i + 1) % n < n)
unfolding distance
distance-increment n i j hi hj ne = ground (arith, increment_cases n i)

-- After a step of the second index, there is one more step between them, unless they meet.
pub distance-advance :
    (n i j : ℕ)
    → i < n
    → j < n
    → (j + 1) % n ≢ i
    → distance n i ((j + 1) % n) ≡ suc (distance n i j)
unfolding distance
distance-advance n i j hi hj ne = ground (arith, increment_cases n j)

pub distance_self : (n i : ℕ) → distance n i i ≡ 0
unfolding distance
distance_self n i = ground arith

pub distance-lt : (n i j : ℕ) → i < n → j < n → distance n i j < n
unfolding distance
distance-lt n i j hi hj = ground arith

-- The ring is full when a step of the second index would meet the first.
pub distance-full : (n i j : ℕ) → i < n → j < n → ((j + 1) % n ≡ i) ↔ (distance n i j + 1 ≡ n)
unfolding distance
distance-full n i j hi hj =
    (ground (arith, increment_cases n j), ground (arith, increment_cases n j))

distance-zero : (n i j : ℕ) → i < n → j < n → distance n i j ≡ 0 → j ≡ i
unfolding distance
distance-zero n i j hi hj e = ground arith

pub distance-pos : (n i j : ℕ) → 0 < distance n i j → i ≢ j
unfolding distance
distance-pos n i j e = ground arith

distance-suc : (n i j k : ℕ) → distance n i j ≡ suc k → i ≢ j
unfolding distance
distance-suc n i j k e = ground arith

module _ {A : Type 0} (silence : A) where
  unfoldable pub block : Slot A → Block A
  block slot = record { samples = take slot.sample_count slot.samples; metadata = slot.metadata }

  -- The blocks of `count` slots from an index on.
  unfoldable pub collect : List (Slot A) → ℕ → ℕ → List (Block A)
  collect slots zero i = []
  collect slots (suc count) i =
      block (slot_at silence slots i) ∷ collect slots count (increment silence slots i)

  pub length-collect :
      (slots : List (Slot A)) (count i : ℕ) → length (collect slots count i) ≡ count
  unfolding collect
  length-collect slots zero i = refl
  length-collect slots (suc count) i =
      ap suc (length-collect slots count (increment silence slots i))

  -- One more slot adds its block at the end.
  pub collect-suc :
      (slots : List (Slot A)) (count i j : ℕ)
      → i < length slots
      → j < length slots
      → distance (length slots) i j ≡ count
      → collect slots (suc count) i ≡ collect slots count i ++ block (slot_at silence slots j) ∷ []
  unfolding collect
  collect-suc slots zero i j hi hj e = rw (distance-zero (length slots) i j hi hj e)
  collect-suc slots (suc count) i j hi hj e =
      let apart : i ≢ j = distance-suc (length slots) i j count e in
      let (step, inside) = distance-increment (length slots) i j hi hj apart in
      ap (λ rest. block (slot_at silence slots i) ∷ rest)
        (collect-suc slots count (increment silence slots i) j inside hj (omega arith))

  -- Writing the slot after the collected ones changes none of them.
  pub collect-set :
      (slots : List (Slot A)) (count i j : ℕ) (slot : Slot A)
      → i < length slots
      → j < length slots
      → count ≤ distance (length slots) i j
      → collect (set slots j slot) count i ≡ collect slots count i
  unfolding collect
  collect-set slots zero i j slot hi hj e = refl
  collect-set slots (suc count) i j slot hi hj e =
      let apart : i ≢ j = distance-pos (length slots) i j (omega arith) in
      let (step, inside) = distance-increment (length slots) i j hi hj apart in
      rw
        (
          get_or-set_ne slots j i slot (fresh_slot silence 0) (λ p. apart (sym p)),
          length-set slots j slot,
        )
        (ap (λ rest. block (slot_at silence slots i) ∷ rest)
          (collect-set slots count (increment silence slots i) j slot inside hj (omega arith)))

  -- A slot written after the collected ones is the block at the end.
  pub collect-set_end :
      (slots : List (Slot A)) (count i j : ℕ) (slot : Slot A)
      → i < length slots
      → j < length slots
      → distance (length slots) i j ≡ count
      → collect (set slots j slot) (suc count) i ≡ collect slots count i ++ block slot ∷ []
  collect-set_end slots count i j slot hi hj e =
      let same = length-set slots j slot in
      collect-suc (set slots j slot) count i j (rw same hi) (rw same hj) (rw same e)
      ∙ rw (
        get_or-set_self slots j slot (fresh_slot silence 0) hj,
        collect-set slots count i j slot hi hj (omega arith),
      )
