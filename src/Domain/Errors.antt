-- ===== src/Domain/Errors.antt =====
-- Go's errors: the sentinels of internal/domain/errors.go, those of the drivers and of
-- internal/storage/redis, any other error by its message, and `fmt.Errorf` with `%w`.
-- A pair `(T, error)` of results is `Result T`: with an error the callers use no value.
use team_tasks.Base.{ℕ, String, Bool, true, false, if◌then◌else◌}

pub data Sentinel : Type 0 where
  not_found forbidden conflict unauthorized : Sentinel

pub data Error : Type 0 where
  sentinel : Sentinel → Error
  -- `sql.ErrNoRows`
  no_rows : Error
  -- `*mysqldrv.MySQLError` with its number
  mysql_error : ℕ → Error
  -- `redis.Nil`, and `ErrCacheMiss`
  redis_nil cache_miss : Error
  plain : String → Error
  wrapped : String → Error → Error

abbrev pub same_sentinel : Sentinel → Sentinel → Bool
same_sentinel not_found not_found = true
same_sentinel forbidden forbidden = true
same_sentinel conflict conflict = true
same_sentinel unauthorized unauthorized = true
same_sentinel _ _ = false

-- `errors.Is(err, target)` for a sentinel of the domain.
abbrev pub errors_is : Sentinel → Error → Bool
errors_is s (sentinel t) = same_sentinel s t
errors_is s (wrapped _ e) = errors_is s e
errors_is s _ = false

pub data Result {ℓ} (A : Type ℓ) : Type ℓ where
  ok : A → Result A
  err : Error → Result A

-- The two returns behind `GetMemberRole` of the caller, the same in every service.
abbrev pub membership_error : String → Error → Error
membership_error label e = if errors_is not_found e then sentinel forbidden else wrapped label e
