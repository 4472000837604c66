-- ===== src/Creds.antt =====
-- internal/creds/cache.go: the credentials cache. Times are nanoseconds, and 0 is the zero time of
-- Go, which lies before every clock reading; `Unix` times are seconds. Go's map of pointers to
-- entries is a list of (group, pointer) pairs over a heap of entries, so that an entry that
-- `InvalidateAll` drops lives on for a `Get` that still holds it. Stream ids are not negative.
mod Tests
pub mod Heap
pub mod Refinement
pub mod Expiry
pub mod Errors
pub mod Orphans
use wgturn_core.Prelude.{
  ℕ, suc, zero, ◌+◌, ◌-◌, ◌*◌, ◌/◌, Bool, true, false, ◌&&◌, ◌||◌, List, [], ◌∷◌, ◌++◌, Option,
  none, some, Bytes, codes, equal, length, get_elem?, set, Result, ok, err, ltb, leb, ◌==◌,
  if◌then◌else◌, contains,
}

-- A Go `time.Duration`: `span n` is n ≥ 0 nanoseconds, `negative n` is less than none.
pub data Duration : Type 0 where
  span : ℕ → Duration
  negative : ℕ → Duration

abbrev pub second : ℕ
second = 1000000000

abbrev pub default_lifetime : ℕ
default_lifetime = 600 * second

abbrev pub default_safety_margin : ℕ
default_safety_margin = 60 * second

abbrev pub max_cache_errors : ℕ
max_cache_errors = 3

-- `ErrorWindow`, in seconds as `HandleAuthError` uses it.
abbrev pub error_window : ℕ
error_window = 10

pub record Credentials : Type 0 where
  pub username : Bytes
  pub password : Bytes
  pub server_addr : Bytes
  pub expires_in : Duration

abbrev pub no_credentials : Credentials
no_credentials = record { username = []; password = []; server_addr = []; expires_in = span 0 }

pub record Entry : Type 0 where
  pub creds : Credentials
  pub link : Bytes
  pub expires : ℕ
  pub error_count : ℕ
  pub last_error_time : ℕ

-- `&entry{}`
abbrev pub new_entry : Entry
new_entry = record {
  creds = no_credentials;
  link = [];
  expires = 0;
  error_count = 0;
  last_error_time = 0;
}

pub record Cache : Type 0 where
  pub streams_per_cred : ℕ
  pub entries : List (ℕ × ℕ)
  pub heap : List Entry

-- `NewCache`; the argument is an `int`, where `negative` stands for the values below 0.
unfoldable pub new_cache : Duration → Cache
new_cache (span zero) = record { streams_per_cred = 4; entries = []; heap = [] }
new_cache (span (suc n)) = record { streams_per_cred = suc n; entries = []; heap = [] }
new_cache (negative _) = record { streams_per_cred = 4; entries = []; heap = [] }

abbrev pub group_id : Cache → ℕ → ℕ
group_id c stream_id = stream_id / c.streams_per_cred

-- The map lookup.
unfoldable pub lookup : ℕ → List (ℕ × ℕ) → Option ℕ
lookup gid [] = none
lookup gid ((g, p) ∷ m) = if g == gid then some p else lookup gid m

-- A new entry on the heap, and its pointer in the map.
abbrev pub alloc_entry : Cache → ℕ → Cache × ℕ
alloc_entry c gid = (
  record c { entries = (gid, length c.heap) ∷ c.entries; heap = c.heap ++ (new_entry ∷ []) },
  length c.heap,
)

-- `getEntry`: the cache after it, and the entry's pointer.
unfoldable pub get_entry : Cache → ℕ → Cache × ℕ
unfolding lookup
get_entry c stream_id = elim (lookup (group_id c stream_id) c.entries) [
  | some p ↦ (c, p)
  | none ↦ alloc_entry c (group_id c stream_id)
]

-- What a pointer holds; every pointer of a cache is allocated, so the default is not read.
abbrev pub deref : Cache → ℕ → Entry
deref c p = elim (get_elem? c.heap p) [ some e ↦ e | none ↦ new_entry ]

abbrev pub store : Cache → ℕ → Entry → Cache
store c p e = record c { heap = set c.heap p e }

-- The lifetime that `Get` works with, and the margin that it takes off.
unfoldable pub lifetime_of : Credentials → ℕ
lifetime_of cr = elim cr.expires_in [
  | span n ↦ if leb n 0 then default_lifetime else n
  | negative _ ↦ default_lifetime
]

unfoldable pub margin_of : ℕ → ℕ
margin_of lifetime =
    if ltb (lifetime / 2) default_safety_margin then lifetime / 2 else default_safety_margin

pub data GetError {ℓ} (E : Type ℓ) : Type ℓ where
  provider_is_nil : GetError E
  context_done : E → GetError E
  fetch_failed : E → GetError E

-- The test of a hit.
abbrev pub is_fresh : Entry → Bytes → ℕ → Bool
is_fresh e hint now = equal e.link hint && ltb now e.expires

-- The entry with fresh credentials, at the clock reading after the fetch.
abbrev pub fill : Entry → Bytes → ℕ → Credentials → Entry
fill e hint later cr = record e {
  creds = cr;
  link = hint;
  expires = later + (lifetime_of cr - margin_of (lifetime_of cr));
}

module _ {ℓ} {E : Type ℓ} where
  -- What `Get` writes back into the entry at `p` once `Fetch` has returned, at time `later`.
  unfoldable pub fetched :
      Cache → ℕ → Bytes → ℕ → Result E Credentials → Cache × Result (GetError E) Credentials
  fetched c p hint later (err e) = (c, err (fetch_failed e))
  fetched c p hint later (ok cr) = (store c p (fill (deref c p) hint later cr), ok cr)

  -- `Get` on the entry at `p`: `now` is the clock at the test, `later` the clock after the fetch.
  unfoldable pub get_at :
      Cache
      → ℕ
      → Bytes
      → ℕ
      → Option E
      → ℕ
      → ℕ
      → (Bytes → ℕ → Result E Credentials)
      → Cache × Result (GetError E) Credentials
  unfolding fetched
  get_at c p hint stream_id ctx_err now later fetch =
      if is_fresh (deref c p) hint now then (c, ok (deref c p).creds) else elim ctx_err [
        | some e ↦ (c, err (context_done e))
        | none ↦ fetched c p hint later (fetch hint stream_id)
      ]

  -- `Get`; `none` is the nil provider.
  unfoldable pub get :
      Cache
      → Bytes
      → ℕ
      → Option E
      → ℕ
      → ℕ
      → Option (Bytes → ℕ → Result E Credentials)
      → Cache × Result (GetError E) Credentials
  unfolding get_at get_entry
  get c hint stream_id ctx_err now later none = (c, err provider_is_nil)
  get c hint stream_id ctx_err now later (some fetch) =
      let (c', p) = get_entry c stream_id in get_at c' p hint stream_id ctx_err now later fetch

-- `HandleAuthError` on an entry, at the Unix time `now`. The difference of the two times is
-- signed in Go: a clock that went back gives no reset, and neither does `now - last` on ℕ.
abbrev pub error_count_at : Entry → ℕ → ℕ
error_count_at e now = (if ltb error_window (now - e.last_error_time) then 0 else e.error_count) + 1

unfoldable pub auth_error : Entry → ℕ → Entry × Bool
auth_error e now =
    if leb max_cache_errors (error_count_at e now)
    then (new_entry, true)
    else (record e { error_count = error_count_at e now; last_error_time = now }, false)

unfoldable pub handle_auth_error : Cache → ℕ → ℕ → Cache × Bool
unfolding auth_error get_entry
handle_auth_error c stream_id now =
    let (c', p) = get_entry c stream_id in
    let (e, invalidated) = auth_error (deref c' p) now in (store c' p e, invalidated)

-- `InvalidateAll`: a new map; the entries that somebody holds stay where they are.
abbrev pub invalidate_all : Cache → Cache
invalidate_all c = record c { entries = [] }

-- `IsAuthError` and `IsRateLimitError`, on the text of the error; `none` is the nil error.
abbrev pub auth_needles : List Bytes
auth_needles =
    codes "401"
    ∷ codes "Unauthorized"
    ∷ codes "authentication"
    ∷ codes "invalid credential"
    ∷ codes "stale nonce"
    ∷ []

unfoldable pub contains_any : Bytes → List Bytes → Bool
contains_any s [] = false
contains_any s (needle ∷ needles) = contains s needle || contains_any s needles

unfoldable pub is_auth_error : Option Bytes → Bool
unfolding contains_any contains
is_auth_error none = false
is_auth_error (some s) = contains_any s auth_needles

unfoldable pub is_rate_limit_error : Option Bytes → Bool
unfolding contains
is_rate_limit_error none = false
is_rate_limit_error (some s) = contains s (codes "code=29") || contains s (codes "Rate limit")
