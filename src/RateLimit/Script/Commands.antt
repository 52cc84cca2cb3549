-- ===== src/RateLimit/Script/Commands.antt =====
-- The commands of Redis that the script calls, and what their documentation says of sorted sets. Each
-- command gets the second that the server's clock shows.
use aegis_pulse.Base.{
  ℕ, ◌≡◌, String, Bool, false, ◌&&◌, List, [], ◌∷◌, ◌++◌, if◌then◌else◌, leb_ℤ, ltb_ℤ, ℤ, ◌+ℤ◌,
  ◌≤ℤ◌, length, str_eq, Text, print_int, ◌<◌, ◌^◌, pos_part, neg_part,
}
use aegis_pulse.RateLimit.Window.Prune.{AllTo}

-- `tostring` is the one of Lua, on a number that is an integer.
pub record Commands (S : Type 0) : Type 0 where
  pub zremrangebyscore : ℤ → String → ℤ → ℤ → S → S
  pub zcard : ℤ → String → S → ℕ
  pub zadd : ℤ → String → ℤ → Text → S → S
  pub expire : ℤ → String → ℤ → S → S
  pub hincrby : ℤ → String → String → ℤ → S → S × ℤ
  pub xadd : ℤ → String → List (String × Text) → S → S
  pub tostring : ℤ → Text

-- The scores outside the closed interval.
abbrev pub outside : ℤ → ℤ → List ℤ → List ℤ
outside lo hi [] = []
outside lo hi (x ∷ xs) =
    let rest = outside lo hi xs in if leb_ℤ lo x && leb_ℤ x hi then rest else x ∷ rest

-- `scores at k s` lists the scores of the sorted set `k` when the clock shows `at`, in their order:
-- nothing where there is no set, or it has expired. `is_member at k id s` says that `id` is in it.
pub record IsRedis {S : Type 0} (redis : Commands S) (scores : ℤ → String → S → List ℤ)
    (is_member : ℤ → String → Text → S → Bool) : Type 0 where
  -- ZCARD counts the members.
  pub length-scores : (at : ℤ) (k : String) (s : S) → redis.zcard at k s ≡ length (scores at k s)
  -- ZREMRANGEBYSCORE drops the members of an interval, and keeps the set's lifetime.
  pub scores-zrem :
      (at later : ℤ) (k j : String) (lo hi : ℤ) (s : S)
      → at ≤ℤ later
      → scores later j (redis.zremrangebyscore at k lo hi s)
        ≡ (if str_eq k j then outside lo hi (scores later j s) else scores later j s)
  -- ZADD puts a new member with the highest score last.
  pub scores-zadd :
      (at : ℤ) (k : String) (score : ℤ) (id : Text) (s : S)
      → is_member at k id s ≡ false
      → AllTo score (scores at k s)
      → scores at k (redis.zadd at k score id s) ≡ scores at k s ++ score ∷ []
  pub scores-zadd_other :
      (at later : ℤ) (k j : String) (score : ℤ) (id : Text) (s : S)
      → str_eq k j ≡ false
      → scores later j (redis.zadd at k score id s) ≡ scores later j s
  -- EXPIRE sets the lifetime, from now on, whatever it was.
  pub scores-expire :
      (at later : ℤ) (k j : String) (seconds : ℤ) (s : S)
      → at ≤ℤ later
      → scores later j (redis.expire at k seconds s) ≡ (
          if str_eq k j
          then (if ltb_ℤ later (at +ℤ seconds) then scores at k s else [])
          else scores later j s)
  -- HINCRBY and XADD touch no sorted set: on one they are an error of type.
  pub scores-hincrby :
      (at later : ℤ) (k j field : String) (n : ℤ) (s : S)
      → scores later j (redis.hincrby at k field n s).0 ≡ scores later j s
  pub scores-xadd :
      (at later : ℤ) (k j : String) (fields : List (String × Text)) (s : S)
      → scores later j (redis.xadd at k fields s) ≡ scores later j s
  -- Lua prints 14 digits of a number.
  pub tostring-small :
      (n : ℤ) → pos_part n < 10 ^ 14 → neg_part n < 10 ^ 14 → redis.tostring n ≡ print_int n
