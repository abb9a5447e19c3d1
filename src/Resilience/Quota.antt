-- ===== src/Resilience/Quota.antt =====
-- common/services/user-quota.service.ts: daily counters of a user and of all users, and the slots
-- of running generations. The counters live in Redis, which is given.
pub mod Limits
pub mod Guard
use music_video_generator.Prelude.{
  ℕ, suc, ◌+◌, ◌-◌, ◌*◌, Bool, true, false, ◌&&◌, Option, none, some, ◌≡◌, Text, text_eq, ltb, leb,
  ◌==◌, if◌then◌else◌,
}

pub data QuotaResource : Type 0 where
  projects generations gemini_calls : QuotaResource

-- The keys of the counters; a day is a number.
pub data Key : Type 0 where
  user_key : Text → ℕ → QuotaResource → Key
  global_key : ℕ → QuotaResource → Key
  concurrent_key : Key

unfoldable pub same_resource : QuotaResource → QuotaResource → Bool
same_resource projects projects = true
same_resource generations generations = true
same_resource gemini_calls gemini_calls = true
same_resource _ _ = false

unfoldable pub same_key : Key → Key → Bool
unfolding same_resource text_eq
same_key (user_key u d r) (user_key v e q) = text_eq u v && d == e && same_resource r q
same_key (global_key d r) (global_key e q) = d == e && same_resource r q
same_key concurrent_key concurrent_key = true
same_key _ _ = false

-- What the service relies on of Redis: a counter that is not there reads as 0.
pub record Counters : Type 1 where
  pub State : Type 0
  pub count : Key → State → ℕ
  pub incr : Key → State → State
  pub expire : Key → ℕ → State → State
  pub put : Key → ℕ → State → State
  pub count-incr :
      (k j : Key) (s : State)
      → count k (incr j s) ≡ (if same_key k j then suc (count k s) else count k s)
  pub count-expire : (k j : Key) (ttl : ℕ) (s : State) → count k (expire j ttl s) ≡ count k s
  pub count-put :
      (k j : Key) (n : ℕ) (s : State)
      → count k (put j n s) ≡ (if same_key k j then n else count k s)

pub record Settings : Type 0 where
  pub enabled : Bool
  pub user_limit : QuotaResource → ℕ
  pub global_limit : QuotaResource → ℕ
  pub max_concurrent_generations : ℕ

pub data Scope : Type 0 where
  user global : Scope

-- `resetsAt` is the end of the day and is left out.
pub record QuotaCheckResult : Type 0 where
  pub allowed : Bool
  pub current : ℕ
  pub limit : ℕ
  pub scope : Scope

-- `reason` names the limit that was reached.
pub record Verdict : Type 0 where
  pub ok : Bool
  pub reason : Option Scope
  pub user : QuotaCheckResult
  pub global : QuotaCheckResult

abbrev pub ttl_seconds : ℕ
ttl_seconds = 48 * 60 * 60

module _ (c : Counters) (q : Settings) where
  -- `checkUserQuota` and `checkGlobalQuota`, by the key, the limit and the scope.
  unfoldable pub check : Scope → Key → ℕ → c.State → QuotaCheckResult
  check sc k limit s =
      if q.enabled
      then record {
        allowed = ltb (c.count k s) limit;
        current = c.count k s;
        limit = limit;
        scope = sc;
      }
      else record { allowed = true; current = 0; limit = limit; scope = sc }

  -- `incrementUser` and `incrementGlobal`.
  unfoldable pub increment : Scope → Key → ℕ → c.State → QuotaCheckResult × c.State
  increment sc k limit s =
      if q.enabled
      then (let s₁ = c.incr k s in
          let value = c.count k s₁ in
          let s₂ = if value == 1 then c.expire k ttl_seconds s₁ else s₁ in
          (record { allowed = leb value limit; current = value; limit = limit; scope = sc }, s₂))
      else (record { allowed = true; current = 0; limit = limit; scope = sc }, s)

  abbrev pub check_user : ℕ → Text → QuotaResource → c.State → QuotaCheckResult
  unfolding check
  check_user day u r = check user (user_key u day r) (q.user_limit r)

  abbrev pub check_global : ℕ → QuotaResource → c.State → QuotaCheckResult
  unfolding check
  check_global day r = check global (global_key day r) (q.global_limit r)

  abbrev pub increment_user : ℕ → Text → QuotaResource → c.State → QuotaCheckResult × c.State
  unfolding increment
  increment_user day u r = increment user (user_key u day r) (q.user_limit r)

  abbrev pub increment_global : ℕ → QuotaResource → c.State → QuotaCheckResult × c.State
  unfolding increment
  increment_global day r = increment global (global_key day r) (q.global_limit r)

  abbrev denied : Scope → QuotaCheckResult → QuotaCheckResult → Verdict
  denied sc u g = record { ok = false; reason = some sc; user = u; global = g }

  -- The tests behind the two increments of `checkAndIncrement`.
  abbrev settled : QuotaCheckResult → QuotaCheckResult → Verdict
  settled u g =
      if u.allowed
      then (if g.allowed
          then record { ok = true; reason = none; user = u; global = g }
          else denied global u g)
      else denied user u g

  unfoldable pub check_and_increment : ℕ → Text → QuotaResource → c.State → Verdict × c.State
  unfolding check_user check_global increment_user increment_global
  check_and_increment day u r s =
      let user_check = check_user day u r s in
      let global_check = check_global day r s in
      if user_check.allowed
      then (if global_check.allowed
          then (let (user_result, s₁) = increment_user day u r s in
              let (global_result, s₂) = increment_global day r s₁ in
              (settled user_result global_result, s₂))
          else (denied global user_check global_check, s))
      else (denied user user_check global_check, s)

  pub record Slot : Type 0 where
    pub allowed : Bool
    pub current : ℕ

  unfoldable pub acquire_generation_slot : c.State → Slot × c.State
  acquire_generation_slot s =
      let current = c.count concurrent_key s in
      if q.enabled
      then (if leb q.max_concurrent_generations current
          then (record { allowed = false; current = current }, s)
          else (let s₁ = c.incr concurrent_key s in
              let value = c.count concurrent_key s₁ in
              let s₂ = if value == 1 then c.expire concurrent_key 3600 s₁ else s₁ in
              (record { allowed = leb value q.max_concurrent_generations; current = value }, s₂)))
      else (record { allowed = true; current = 0 }, s)

  unfoldable pub release_generation_slot : c.State → c.State
  release_generation_slot s =
      let current = c.count concurrent_key s in
      if q.enabled then (if ltb 0 current then c.put concurrent_key (current - 1) s else s) else s
