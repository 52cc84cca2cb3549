-- ===== src/Examples/Sets.antt =====
-- A store of sorted sets that keeps the documented promises of Redis: per key the members in order,
-- and the second at which the set expires.
use aegis_pulse.Base.{
  ◌≡◌, refl, String, Bool, true, false, ◌&&◌, Option, none, some, List, [], ◌∷◌, ◌++◌,
  if◌then◌else◌, leb_ℤ, ltb_ℤ, ℤ, ◌+ℤ◌, length, str_eq, eq_refl, Text, text_eq, print_int, Dict,
  lookup, insert, lookup-insert, arith, eq_iff, Bool-cases, inl, inr,
}
use aegis_pulse.RateLimit.Window.Prune.{AllTo}
use aegis_pulse.RateLimit.Script.Commands.{Commands, IsRedis, outside}

pub record Sorted : Type 0 where
  pub members : List (Text × ℤ)
  pub expires : Option ℤ

abbrev pub Store : Type 0
Store = Dict Sorted

abbrev pub lives : ℤ → Option ℤ → Bool
lives at none = true
lives at (some e) = ltb_ℤ at e

abbrev pub found : ℤ → Option Sorted → List (Text × ℤ)
found at none = []
found at (some z) = if lives at z.expires then z.members else []

abbrev pub members_of : ℤ → String → Store → List (Text × ℤ)
members_of at k s = found at (lookup k s)

abbrev pub score_list : List (Text × ℤ) → List ℤ
score_list [] = []
score_list ((id, x) ∷ ms) = x ∷ score_list ms

abbrev pub scores : ℤ → String → Store → List ℤ
scores at k s = score_list (members_of at k s)

abbrev pub mentions : Text → List (Text × ℤ) → Bool
mentions id [] = false
mentions id ((other, x) ∷ ms) = let rest = mentions id ms in if text_eq other id then true else rest

abbrev pub is_member : ℤ → String → Text → Store → Bool
is_member at k id s = mentions id (members_of at k s)

abbrev pub cut : ℤ → ℤ → List (Text × ℤ) → List (Text × ℤ)
cut lo hi [] = []
cut lo hi ((id, x) ∷ ms) =
    let rest = cut lo hi ms in if leb_ℤ lo x && leb_ℤ x hi then rest else (id, x) ∷ rest

abbrev pub without : Text → List (Text × ℤ) → List (Text × ℤ)
without id [] = []
without id ((other, x) ∷ ms) =
    let rest = without id ms in if text_eq other id then rest else (other, x) ∷ rest

-- After the members with the same score.
abbrev pub place : ℤ → Text → List (Text × ℤ) → List (Text × ℤ)
place x id [] = (id, x) ∷ []
place x id ((other, y) ∷ ms) =
    let rest = place x id ms in if leb_ℤ y x then (other, y) ∷ rest else (id, x) ∷ (other, y) ∷ ms

abbrev pub expiry : ℤ → Option Sorted → Option ℤ
expiry at none = none
expiry at (some z) = if lives at z.expires then z.expires else none

abbrev pub cut_in : ℤ → ℤ → Option Sorted → Sorted
cut_in lo hi none = record { members = []; expires = none }
cut_in lo hi (some z) = record z { members = cut lo hi z.members }

abbrev pub redis : Commands Store
redis = record {
  zremrangebyscore = λ at k lo hi s. insert k (cut_in lo hi (lookup k s)) s;
  zcard = λ at k s. length (members_of at k s);
  zadd = λ at k x id s.
      insert k
        (record {
          members = place x id (without id (members_of at k s));
          expires = expiry at (lookup k s);
        })
        s;
  expire = λ at k seconds s.
      insert k (record { members = members_of at k s; expires = some (at +ℤ seconds) }) s;
  hincrby = λ at k field n s. (s, n);
  xadd = λ at k fields s. s;
  tostring = print_int;
}

score_list-cut :
    (lo hi : ℤ) (ms : List (Text × ℤ)) → score_list (cut lo hi ms) ≡ outside lo hi (score_list ms)
score_list-cut lo hi [] = refl
score_list-cut lo hi ((id, x) ∷ ms) = ground (arith, score_list-cut lo hi ms)

without-new : (id : Text) (ms : List (Text × ℤ)) → mentions id ms ≡ false → without id ms ≡ ms
without-new id [] h = refl
without-new id ((other, x) ∷ ms) h = ground (arith, without-new id ms)

place-last :
    (x : ℤ) (id : Text) (ms : List (Text × ℤ))
    → AllTo x (score_list ms)
    → score_list (place x id ms) ≡ score_list ms ++ x ∷ []
place-last x id [] h = refl
place-last x id ((other, y) ∷ ms) h = ground (arith, place-last x id ms)

length-score_list : (ms : List (Text × ℤ)) → length ms ≡ length (score_list ms)
length-score_list [] = refl
length-score_list ((id, x) ∷ ms) = ground (arith, length-score_list ms)

found-cut :
    (at lo hi : ℤ) (o : Option Sorted)
    → score_list (found at (some (cut_in lo hi o))) ≡ outside lo hi (score_list (found at o))
found-cut at lo hi none = refl
found-cut at lo hi (some z) = elim (Bool-cases (lives at z.expires)) [
  | inl alive ↦ rw alive (score_list-cut lo hi z.members)
  | inr dead ↦ rw dead refl
]

lives-expiry : (at : ℤ) (o : Option Sorted) → lives at (expiry at o) ≡ true
lives-expiry at none = refl
lives-expiry at (some z) = elim (Bool-cases (lives at z.expires)) [
  | inl alive ↦ rw alive alive
  | inr dead ↦ rw dead refl
]

-- A key that a command leaves alone.
scores-insert_other :
    (at : ℤ) (k j : String) (z : Sorted) (s : Store)
    → str_eq k j ≡ false
    → scores at j (insert k z s) ≡ scores at j s
scores-insert_other at k j z s other = rw (lookup-insert k j z s, other) refl

ap-if :
    {A B : Type 0} (f : A → B) (b : Bool) (x y : A)
    → f (if b then x else y) ≡ (if b then f x else f y)
ap-if f true x y = refl
ap-if f false x y = refl

scores-zrem :
    (later : ℤ) (k j : String) (lo hi : ℤ) (s : Store)
    → scores later j (insert k (cut_in lo hi (lookup k s)) s)
      ≡ (if str_eq k j then outside lo hi (scores later j s) else scores later j s)
scores-zrem later k j lo hi s = elim (Bool-cases (str_eq k j)) [
  | inl same ↦
      rw (lookup-insert k j (cut_in lo hi (lookup k s)) s, same, ← (eq_iff k j).0 same)
        (found-cut later lo hi (lookup k s))
  | inr other ↦ rw (lookup-insert k j (cut_in lo hi (lookup k s)) s, other) refl
]

scores-zadd :
    (at : ℤ) (k : String) (x : ℤ) (id : Text) (s : Store)
    → is_member at k id s ≡ false
    → AllTo x (scores at k s)
    → scores at k (redis.zadd at k x id s) ≡ scores at k s ++ x ∷ []
scores-zadd at k x id s new upto =
    rw
      (
        lookup-insert k k
            (record {
              members = place x id (without id (members_of at k s));
              expires = expiry at (lookup k s);
            })
            s,
        eq_refl k,
        lives-expiry at (lookup k s),
        without-new id (members_of at k s) new,
      )
      (place-last x id (members_of at k s) upto)

scores-expire :
    (at later : ℤ) (k j : String) (seconds : ℤ) (s : Store)
    → scores later j (redis.expire at k seconds s) ≡ (
        if str_eq k j
        then (if ltb_ℤ later (at +ℤ seconds) then scores at k s else [])
        else scores later j s)
scores-expire at later k j seconds s = elim (Bool-cases (str_eq k j)) [
  | inl same ↦
      rw
        (
          lookup-insert k j (record { members = members_of at k s; expires = some (at +ℤ seconds) })
              s,
          same,
        )
        (ap-if score_list (ltb_ℤ later (at +ℤ seconds)) (members_of at k s) [])
  | inr other ↦
      rw
        (
          lookup-insert k j (record { members = members_of at k s; expires = some (at +ℤ seconds) })
              s,
          other,
        )
        refl
]

pub redis-IsRedis : IsRedis redis scores is_member
redis-IsRedis = record {
  length-scores = λ at k s. length-score_list (members_of at k s);
  scores-zrem = λ at later k j lo hi s le. scores-zrem later k j lo hi s;
  scores-zadd = λ at k x id s new upto. scores-zadd at k x id s new upto;
  scores-zadd_other = λ at later k j x id s other. scores-insert_other later k j _ s other;
  scores-expire = λ at later k j seconds s le. scores-expire at later k j seconds s;
  scores-hincrby = λ at later k j field n s. refl;
  scores-xadd = λ at later k j fields s. refl;
  tostring-small = λ n high low. refl;
}
