-- ===== src/Smtp/Limits.antt =====
-- The connections that one client may hold: internal/smtpsrv/limits.go.
use smtp_auth_proxy.Prelude.{
  ℕ, ◌+◌, ◌-◌, ◌≤◌, ◌≡◌, refl, ◌⊎◌, Bool, true, false, ◌&&◌, Option, none, some, List, ◌∷◌, arith,
  ltb, leb, if◌then◌else◌, if_cases, length, [],
}
use smtp_auth_proxy.Strings.{Str, str_eq, codes}

-- Go's `net.SplitHostPort`: the host.
pub record SplitHost : Type 0 where
  pub host : Str → Option Str

-- The map `perIP` is an association list, in which a missing client counts 0.
pub record ConnLimiter : Type 0 where
  pub per_ip : List (Str × ℕ)
  pub total : ℕ
  pub max_ip : ℕ
  pub max_all : ℕ

unfoldable pub new_conn_limiter : ℕ → ℕ → ConnLimiter
new_conn_limiter max_per_ip max_total = record {
  per_ip = [];
  total = 0;
  max_ip = max_per_ip;
  max_all = max_total;
}

unfoldable pub count : List (Str × ℕ) → Str → ℕ
count [] key = 0
count ((k, n) ∷ rest) key = let later = count rest key in if str_eq k key then n else later

unfoldable pub set : List (Str × ℕ) → Str → ℕ → List (Str × ℕ)
set [] key n = (key, n) ∷ []
set ((k, m) ∷ rest) key n =
    let later = set rest key n in if str_eq k key then (k, n) ∷ rest else (k, m) ∷ later

unfoldable pub remove : List (Str × ℕ) → Str → List (Str × ℕ)
remove [] key = []
remove ((k, m) ∷ rest) key =
    let later = remove rest key in if str_eq k key then rest else (k, m) ∷ later

unfoldable pub addr_key : SplitHost → Option Str → Str
addr_key split none = codes "unknown"
addr_key split (some address) = elim (split.host address) [ none ↦ address | some host ↦ host ]

-- `acquire` and `release`, with the key of the address.
unfoldable pub acquire : ConnLimiter → Str → ConnLimiter × Bool
unfolding count set
acquire l key =
    if ltb 0 l.max_all && leb l.max_all l.total
    then (l, false)
    else if ltb 0 l.max_ip && leb l.max_ip (count l.per_ip key)
    then (l, false)
    else (
      record l { per_ip = set l.per_ip key (count l.per_ip key + 1); total = l.total + 1 },
      true,
    )

unfoldable pub release : ConnLimiter → Str → ConnLimiter
unfolding count set remove
release l key =
    let n = count l.per_ip key in
    record l {
      per_ip = if leb n 1 then remove l.per_ip key else set l.per_ip key (n - 1);
      total = if ltb 0 l.total then l.total - 1 else l.total;
    }

-- `counts`
unfoldable pub counts : ConnLimiter → ℕ × ℕ
counts l = (l.total, length l.per_ip)

sum : List (Str × ℕ) → ℕ
sum [] = 0
sum ((k, n) ∷ rest) = n + sum rest

-- Each entry counts at least one connection and at most the limit per client.
Within : ℕ → List (Str × ℕ) → Type 0
Within max_ip [] = Unit
Within max_ip ((k, n) ∷ rest) = (1 ≤ n) × ((max_ip ≡ 0) ⊎ (n ≤ max_ip)) × Within max_ip rest

-- The total is the sum of the clients' counts, and neither passes its limit; a limit of 0 is none.
pub IsWithin : ConnLimiter → Type 0
unfolding sum Within
IsWithin l =
    (l.total ≡ sum l.per_ip) × Within l.max_ip l.per_ip × ((l.max_all ≡ 0) ⊎ (l.total ≤ l.max_all))

sum-set :
    (entries : List (Str × ℕ)) (key : Str) (n : ℕ)
    → sum (set entries key n) + count entries key ≡ sum entries + n
unfolding set count sum
sum-set [] key n = ground arith
sum-set ((k, m) ∷ rest) key n = ground (arith, sum-set rest key n)

sum-remove :
    (entries : List (Str × ℕ)) (key : Str)
    → sum (remove entries key) + count entries key ≡ sum entries
unfolding remove count sum
sum-remove [] key = ground arith
sum-remove ((k, m) ∷ rest) key = ground (arith, sum-remove rest key)

Within-set :
    (max_ip : ℕ) (entries : List (Str × ℕ)) (key : Str) (n : ℕ)
    → Within max_ip entries
    → 1 ≤ n
    → (max_ip ≡ 0) ⊎ (n ≤ max_ip)
    → Within max_ip (set entries key n)
unfolding set Within
Within-set max_ip [] key n w h b = (h, b, tt)
Within-set max_ip ((k, m) ∷ rest) key n w h b = ground (arith, Within-set max_ip rest key n)

Within-remove :
    (max_ip : ℕ) (entries : List (Str × ℕ)) (key : Str)
    → Within max_ip entries
    → Within max_ip (remove entries key)
unfolding remove Within
Within-remove max_ip [] key w = tt
Within-remove max_ip ((k, m) ∷ rest) key w = ground (arith, Within-remove max_ip rest key)

Within-count :
    (max_ip : ℕ) (entries : List (Str × ℕ)) (key : Str)
    → Within max_ip entries
    → (max_ip ≡ 0) ⊎ (count entries key ≤ max_ip)
unfolding count Within
Within-count max_ip [] key w = ground arith
Within-count max_ip ((k, m) ∷ rest) key w = ground (arith, Within-count max_ip rest key)

acquire-IsWithin : (l : ConnLimiter) (key : Str) → IsWithin l → IsWithin (acquire l key).0
unfolding acquire IsWithin
acquire-IsWithin l key h =
    let totals = sum-set l.per_ip key (count l.per_ip key + 1) in
    let entries = Within-set l.max_ip l.per_ip key (count l.per_ip key + 1) h.1 in ground arith

release-IsWithin :
    (l : ConnLimiter) (key : Str) → 1 ≤ count l.per_ip key → IsWithin l → IsWithin (release l key)
unfolding release IsWithin
release-IsWithin l key held h =
    let n = count l.per_ip key in
    let lowered = sum-set l.per_ip key (n - 1) in
    let removed = sum-remove l.per_ip key in
    let bound = Within-count l.max_ip l.per_ip key h.1 in
    let v = Within-remove l.max_ip l.per_ip key h.1 in
    let w = λ (e : 1 ≤ n - 1). Within-set l.max_ip l.per_ip key (n - 1) h.1 e (ground arith) in
    if_cases
      (λ es.
        (r : ℕ)
        → r ≡ (if ltb 0 l.total then l.total - 1 else l.total)
        → (r ≡ sum es) × Within l.max_ip es × ((l.max_all ≡ 0) ⊎ (r ≤ l.max_all)))
      (leb n 1) (λ e r q. ground arith) (λ e r q. let inside = w (ground arith) in ground arith) _
      refl

-- What a limiter can come to: a connection arrives and is granted or refused, or one that was
-- granted ends.
pub data Reachable (max_ip max_all : ℕ) : ConnLimiter → Type 0 where
  start : Reachable max_ip max_all (new_conn_limiter max_ip max_all)
  arrives :
      (l : ConnLimiter) (key : Str)
      → Reachable max_ip max_all l
      → Reachable max_ip max_all (acquire l key).0
  ends :
      (l : ConnLimiter) (key : Str)
      → Reachable max_ip max_all l
      → 1 ≤ count l.per_ip key
      → Reachable max_ip max_all (release l key)

start-IsWithin : (max_ip max_all : ℕ) → IsWithin (new_conn_limiter max_ip max_all)
unfolding new_conn_limiter IsWithin sum Within
start-IsWithin max_ip max_all = ground arith

-- In every state that the connection limiter reaches by arrivals, granted or refused, and by ends
-- of connections that it counts, the total is the sum of the clients' counts, every listed client
-- holds a connection, and neither a client nor the total passes its limit.
pub Reachable-IsWithin :
    (max_ip max_all : ℕ) (l : ConnLimiter) → Reachable max_ip max_all l → IsWithin l
Reachable-IsWithin max_ip max_all _ start = start-IsWithin max_ip max_all
Reachable-IsWithin max_ip max_all _ (arrives l key r) =
    acquire-IsWithin l key (Reachable-IsWithin max_ip max_all l r)
Reachable-IsWithin max_ip max_all _ (ends l key r held) =
    release-IsWithin l key held (Reachable-IsWithin max_ip max_all l r)
