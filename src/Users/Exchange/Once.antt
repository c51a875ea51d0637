-- ===== src/Users/Exchange/Once.antt =====
-- A code is redeemed at most once, also by requests that race.
use saasmint.Base.{ℕ, ◌+◌, ◌<◌, ◌≤◌, ◌≡◌, false, Option, none, some, arith, inl, inr, Bool-cases}
use saasmint.Domain.{Time}
use saasmint.Users.Exchange.{
  Exchange, Step, wait, add, get, delete, Steps, here, then, store_oauth_exchange, add_sentinel,
  get_data, delete_data, is_live,
}

abbrev end_of : Option Time → ℕ
end_of none = 0
end_of (some t) = t

-- Once a request waits or was served, the sentinel is there as long as the code can be; before the code expires there
-- is one such request at most.
pub record IsGuarded (s : Exchange) : Type 0 where
  pub recent : s.expires_at ≤ s.now + 60
  pub one : s.now < s.expires_at → s.served + s.waiting ≤ 1
  pub guarded : 0 < s.served + s.waiting → s.expires_at ≤ end_of s.sentinel
  pub once : s.served ≤ 1

not_live : (now : Time) (o : Option Time) → is_live now o ≡ false → end_of o ≤ now
not_live now none h = omega arith
not_live now (some t) h = ground arith

wait-IsGuarded : (s : Exchange) (d : ℕ) → IsGuarded s → IsGuarded (record s { now = s.now + d })
wait-IsGuarded s d g = record {
  recent = ground (arith, g.recent);
  one = λ h. ground (arith, g.one (omega arith));
  guarded = g.guarded;
  once = g.once;
}

add-IsGuarded : (s : Exchange) → IsGuarded s → IsGuarded (add_sentinel s)
unfolding add_sentinel
add-IsGuarded s g = elim (Bool-cases (is_live s.now s.sentinel)) [
  | inl taken ↦ rw taken g
  | inr free ↦ rw free (record {
    recent = g.recent;
    one = λ h. ground (arith, not_live s.now s.sentinel free);
    guarded = λ h. g.recent;
    once = g.once;
  })
]

get-IsGuarded : (s : Exchange) → 0 < s.waiting → IsGuarded s → IsGuarded (get_data s)
unfolding get_data
get-IsGuarded s w g = record {
  recent = g.recent;
  one = λ h. ground arith;
  guarded = λ h. g.guarded (omega arith);
  once = ground arith;
}

Step-IsGuarded : (s t : Exchange) → Step s t → IsGuarded s → IsGuarded t
unfolding delete_data
Step-IsGuarded s t (wait _ d) g = wait-IsGuarded s d g
Step-IsGuarded s t (add _) g = add-IsGuarded s g
Step-IsGuarded s t (get _ w) g = get-IsGuarded s w g
Step-IsGuarded s t (delete _) g = record {
  recent = g.recent;
  one = g.one;
  guarded = g.guarded;
  once = g.once;
}

Steps-IsGuarded : (s t : Exchange) → Steps s t → IsGuarded s → IsGuarded t
Steps-IsGuarded s t (here _) g = g
Steps-IsGuarded s t (then _ u _ steps step) g =
    Step-IsGuarded u t step (Steps-IsGuarded s u steps g)

store-IsGuarded : (now : Time) → IsGuarded (store_oauth_exchange now)
unfolding store_oauth_exchange
store-IsGuarded now = record {
  recent = omega arith;
  one = λ h. omega arith;
  guarded = λ h. absurd (omega arith);
  once = omega arith;
}

-- After a code is stored, however the cache calls of any number of requests for it interleave and whatever time goes
-- by between them, one request at most gets the pair of tokens.
pub store_oauth_exchange-once :
    (now : Time) (s : Exchange) → Steps (store_oauth_exchange now) s → s.served ≤ 1
store_oauth_exchange-once now s steps =
    (Steps-IsGuarded (store_oauth_exchange now) s steps (store-IsGuarded now)).once
