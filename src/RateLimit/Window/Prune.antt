-- ===== src/RateLimit/Window/Prune.antt =====
-- The binary search of `Check` keeps exactly the timestamps after its bound.
use aegis_pulse.Base.{
  ℕ, zero, suc, ◌+◌, ◌/◌, ◌<◌, ◌≤◌, ◌≡◌, refl, sym, ◌∙◌, Bool, true, false, List, [], ◌∷◌, ◌++◌,
  inl, inr, if◌then◌else◌, ltb, ltb_ℤ, ℤ, pos, ◌≤ℤ◌, length, get_or, drop, arith, Bool-cases,
}
use aegis_pulse.RateLimit.Window.Defs.{search_loop, search_first, prune, is_live}

-- Timestamps after `m`, in their order.
abbrev pub keep : ℤ → List ℤ → List ℤ
keep m [] = []
keep m (t ∷ ts) = let rest = keep m ts in if ltb_ℤ m t then t ∷ rest else rest

abbrev pub AllFrom : ℤ → List ℤ → Type 0
AllFrom b [] = Unit
AllFrom b (t ∷ ts) = (b ≤ℤ t) × AllFrom b ts

abbrev pub AllTo : ℤ → List ℤ → Type 0
AllTo b [] = Unit
AllTo b (t ∷ ts) = (t ≤ℤ b) × AllTo b ts

-- Oldest first.
abbrev pub IsSorted : List ℤ → Type 0
IsSorted [] = Unit
IsSorted (t ∷ ts) = AllFrom t ts × IsSorted ts

-- The test is false before `r` and true from `r` on.
record Splits (f : ℕ → Bool) (n r : ℕ) : Type 0 where
  bound : r ≤ n
  before : (k : ℕ) → k < r → f k ≡ false
  after : (k : ℕ) → r ≤ k → k < n → f k ≡ true

fails_before :
    (f : ℕ → Bool) (n : ℕ)
    → ((a b : ℕ) → a ≤ b → b < n → f a ≡ true → f b ≡ true)
    → (h k : ℕ) → h < n
    → k ≤ h
    → f h ≡ false
    → f k ≡ false
fails_before f n mono h k hn kh no_h = elim (Bool-cases (f k)) [
  | inl pass ↦ cc (mono k h kh hn pass)
  | inr fails ↦ fails
]

search_loop-Splits :
    (f : ℕ → Bool) (n : ℕ)
    → ((a b : ℕ) → a ≤ b → b < n → f a ≡ true → f b ≡ true)
    → (fuel i j : ℕ) → j < fuel + i
    → i ≤ j
    → j ≤ n
    → ((k : ℕ) → k < i → f k ≡ false)
    → ((k : ℕ) → j ≤ k → k < n → f k ≡ true)
    → Splits f n (search_loop f fuel i j)
unfolding search_loop
search_loop-Splits f n mono zero i j h ij jn lo hi = absurd (omega arith)
search_loop-Splits f n mono (suc fuel) i j h ij jn lo hi = elim (Bool-cases (ltb i j)) [
  | inl more ↦ elim (Bool-cases (f ((i + j) / 2))) [
    | inl pass ↦
        rw (more, pass)
          (search_loop-Splits f n mono fuel i ((i + j) / 2) (ground arith) (ground arith)
            (ground arith) lo (λ k a b. mono ((i + j) / 2) k a b pass))
    | inr fails ↦
        rw (more, fails)
          (search_loop-Splits f n mono fuel ((i + j) / 2 + 1) j (ground arith) (ground arith) jn
            (λ k a. fails_before f n mono ((i + j) / 2) k (ground arith) (ground arith) fails) hi)
  ]
  | inr done ↦
      rw done (record { bound = omega arith; before = lo; after = λ k a b. hi k (ground arith) b })
]

search_first-Splits :
    (n : ℕ) (f : ℕ → Bool)
    → ((a b : ℕ) → a ≤ b → b < n → f a ≡ true → f b ≡ true)
    → Splits f n (search_first n f)
unfolding search_first
search_first-Splits n f mono =
    search_loop-Splits f n mono (suc n) 0 n (omega arith) (omega arith) (omega arith)
      (λ k h. elim h [ ]) (λ k a b. absurd (omega arith))

AllFrom-get :
    (b : ℤ) (ts : List ℤ) (i : ℕ) → AllFrom b ts → i < length ts → b ≤ℤ get_or ts i (pos 0)
AllFrom-get b [] i h lt = elim lt [ ]
AllFrom-get b (t ∷ ts) zero h lt = h.0
AllFrom-get b (t ∷ ts) (suc i) h lt = AllFrom-get b ts i h.1 (omega arith)

IsSorted-get :
    (ts : List ℤ) (i j : ℕ)
    → IsSorted ts
    → i ≤ j
    → j < length ts
    → get_or ts i (pos 0) ≤ℤ get_or ts j (pos 0)
IsSorted-get [] i j s le lt = elim lt [ ]
IsSorted-get (t ∷ ts) zero zero s le lt = omega arith
IsSorted-get (t ∷ ts) zero (suc j) s le lt = AllFrom-get t ts j s.0 (omega arith)
IsSorted-get (t ∷ ts) (suc i) zero s le lt = absurd (omega arith)
IsSorted-get (t ∷ ts) (suc i) (suc j) s le lt = IsSorted-get ts i j s.1 (omega arith) (omega arith)

is_live_mono :
    (m : ℤ) (ts : List ℤ)
    → IsSorted ts
    → (a b : ℕ) → a ≤ b
    → b < length ts
    → is_live m ts a ≡ true
    → is_live m ts b ≡ true
is_live_mono m ts s a b le lt h = ground (arith, IsSorted-get ts a b s le lt)

keep_all :
    (m : ℤ) (ts : List ℤ) → ((k : ℕ) → k < length ts → is_live m ts k ≡ true) → keep m ts ≡ ts
keep_all m [] h = refl
keep_all m (t ∷ ts) h = rw (h 0 (omega arith), keep_all m ts (λ k lt. h (suc k) (omega arith)))

drop-keep :
    (m : ℤ) (ts : List ℤ) (r : ℕ) → Splits (is_live m ts) (length ts) r → drop r ts ≡ keep m ts
drop-keep m ts zero s = sym (keep_all m ts (λ k lt. s.after k (omega arith) lt))
drop-keep m [] (suc r) s = refl
drop-keep m (t ∷ ts) (suc r) s = rw (s.before 0 (omega arith)) (
    drop-keep m ts r (record {
      bound = omega (arith, s.bound);
      before = λ k lt. s.before (suc k) (omega arith);
      after = λ k a b. s.after (suc k) (omega arith) (omega arith);
    }))

drop_guard : (ts : List ℤ) (i : ℕ) → (if ltb 0 i then drop i ts else ts) ≡ drop i ts
drop_guard ts zero = refl
drop_guard ts (suc i) = ground arith

-- On a log in order, pruning keeps the timestamps after the bound and no other.
pub prune-keep : (m : ℤ) (ts : List ℤ) → IsSorted ts → prune m ts ≡ keep m ts
unfolding prune
prune-keep m ts s =
    drop_guard ts (search_first (length ts) (is_live m ts))
    ∙ drop-keep m ts _ (search_first-Splits (length ts) (is_live m ts) (is_live_mono m ts s))

pub keep-append : (m : ℤ) (xs ys : List ℤ) → keep m (xs ++ ys) ≡ keep m xs ++ keep m ys
keep-append m [] ys = refl
keep-append m (x ∷ xs) ys = ground (arith, keep-append m xs ys)

-- A later bound makes an earlier one superfluous.
pub keep-keep : (m n : ℤ) (ts : List ℤ) → m ≤ℤ n → keep n (keep m ts) ≡ keep n ts
keep-keep m n [] h = refl
keep-keep m n (t ∷ ts) h = ground (arith, keep-keep m n ts h)

AllFrom-keep : (b m : ℤ) (ts : List ℤ) → AllFrom b ts → AllFrom b (keep m ts)
AllFrom-keep b m [] h = tt
AllFrom-keep b m (t ∷ ts) h = ground (arith, AllFrom-keep b m ts h.1)

pub IsSorted-keep : (m : ℤ) (ts : List ℤ) → IsSorted ts → IsSorted (keep m ts)
IsSorted-keep m [] h = tt
IsSorted-keep m (t ∷ ts) h = ground (arith, IsSorted-keep m ts h.1, AllFrom-keep t m ts h.0)

pub AllTo-keep : (b m : ℤ) (ts : List ℤ) → AllTo b ts → AllTo b (keep m ts)
AllTo-keep b m [] h = tt
AllTo-keep b m (t ∷ ts) h = ground (arith, AllTo-keep b m ts h.1)

pub AllTo-mono : (a b : ℤ) (ts : List ℤ) → a ≤ℤ b → AllTo a ts → AllTo b ts
AllTo-mono a b [] le h = tt
AllTo-mono a b (t ∷ ts) le h = (omega arith, AllTo-mono a b ts le h.1)

AllFrom-snoc : (b t : ℤ) (ts : List ℤ) → AllFrom b ts → b ≤ℤ t → AllFrom b (ts ++ t ∷ [])
AllFrom-snoc b t [] h le = (le, tt)
AllFrom-snoc b t (x ∷ ts) h le = (h.0, AllFrom-snoc b t ts h.1 le)

-- A timestamp that is not before the others goes to the end.
pub IsSorted-snoc : (t : ℤ) (ts : List ℤ) → IsSorted ts → AllTo t ts → IsSorted (ts ++ t ∷ [])
IsSorted-snoc t [] s h = (tt, tt)
IsSorted-snoc t (x ∷ ts) s h = (AllFrom-snoc x t ts s.0 h.0, IsSorted-snoc t ts s.1 h.1)

pub AllTo-snoc : (t : ℤ) (ts : List ℤ) → AllTo t ts → AllTo t (ts ++ t ∷ [])
AllTo-snoc t [] h = (omega arith, tt)
AllTo-snoc t (x ∷ ts) h = (h.0, AllTo-snoc t ts h.1)
