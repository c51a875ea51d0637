-- ===== src/Users/Exchange.antt =====
-- The one-time code that an OAuth sign-in is redeemed by: `_store_oauth_exchange` and `_consume_oauth_exchange` of
-- core/apps/users/auth_views.py. The cache is shared by all requests, and each of its calls is atomic.
pub mod Once
use saasmint.Base.{
  ℕ, suc, ◌+◌, ◌-◌, ◌<◌, Bool, true, false, ◌&&◌, Option, none, some, ltb, if◌then◌else◌, is_some,
}
use saasmint.Domain.{Time}

-- `_OAUTH_EXCHANGE_TTL` in seconds.
abbrev pub exchange_ttl : ℕ
exchange_ttl = 60

-- What the cache holds for one code: whether the pair of tokens has not been deleted, when it expires, and when the
-- sentinel does; how many requests are between their `cache.add` and their `cache.get`, and how many have got the
-- pair.
pub record Exchange : Type 0 where
  pub now : Time
  pub expires_at : Time
  pub is_stored : Bool
  pub sentinel : Option Time
  pub waiting : ℕ
  pub served : ℕ

-- `_store_oauth_exchange`
unfoldable pub store_oauth_exchange : Time → Exchange
store_oauth_exchange now = record {
  now = now;
  expires_at = now + exchange_ttl;
  is_stored = true;
  sentinel = none;
  waiting = 0;
  served = 0;
}

abbrev pub is_live : Time → Option Time → Bool
is_live now none = false
is_live now (some t) = ltb now t

-- `if not cache.add(sentinel, 1, timeout=_OAUTH_EXCHANGE_TTL): return None`
unfoldable pub add_sentinel : Exchange → Exchange
add_sentinel s =
    if is_live s.now s.sentinel
    then s
    else record s { sentinel = some (s.now + exchange_ttl); waiting = suc s.waiting }

-- `data = cache.get(key)`, which finds nothing that was deleted or has expired.
unfoldable pub get_data : Exchange → Exchange
get_data s = record s {
  waiting = s.waiting - 1;
  served = (if s.is_stored && ltb s.now s.expires_at then 1 else 0) + s.served;
}

-- `cache.delete(key)`
unfoldable pub delete_data : Exchange → Exchange
delete_data s = record s { is_stored = false }

-- `_consume_oauth_exchange` of a request that no other one interrupts.
unfoldable pub consume_oauth_exchange : Exchange → Exchange
unfolding add_sentinel get_data delete_data
consume_oauth_exchange s =
    if is_live s.now s.sentinel then s else delete_data (get_data (add_sentinel s))

-- The steps of all requests for the code, in any order: a request gets the data after it has added its sentinel.
pub data Step : Exchange → Exchange → Type 0 where
  wait : (s : Exchange) (seconds : ℕ) → Step s (record s { now = s.now + seconds })
  add : (s : Exchange) → Step s (add_sentinel s)
  get : (s : Exchange) → 0 < s.waiting → Step s (get_data s)
  delete : (s : Exchange) → Step s (delete_data s)

pub data Steps : Exchange → Exchange → Type 0 where
  here : (s : Exchange) → Steps s s
  then : (s t u : Exchange) → Steps s t → Step t u → Steps s u
