-- ===== src/Creds/Tests.antt =====
-- Runs of the credentials cache, and the theorems about it at concrete inputs.
use wgturn_core.Prelude.{
  ℕ, ◌*◌, ◌≡◌, refl, [], ◌∷◌, Bytes, codes, none, some, Result, ok, err, true, arith, equal,
}
use wgturn_core.Creds.{
  Cache, Credentials, GetError, new_entry, new_cache, get, get_entry, handle_auth_error,
  invalidate_all, span, second, store, is_auth_error, lookup, auth_error, fill, lifetime_of,
  margin_of,
}
use wgturn_core.Creds.Heap.{IsWellFormed, seen}
use wgturn_core.Creds.Refinement.{Does, get-Does, handle_auth_error-Updates}
use wgturn_core.Creds.Expiry.{get_hit, get_expired}
use wgturn_core.Creds.Errors.{burst, burst-Close, burst-Apart, get-handle_auth_error}
use wgturn_core.Creds.Orphans.{run, gets, invalidate_all_orphans}

abbrev fresh : Cache
fresh = record { streams_per_cred = 4; entries = []; heap = [] }

fresh-IsWellFormed : IsWellFormed fresh
fresh-IsWellFormed = omega arith

abbrev turn_creds : Credentials
turn_creds = record {
  username = codes "u";
  password = codes "p";
  server_addr = codes "1.2.3.4:3478";
  expires_in = span (300 * second);
}

abbrev link : Bytes
link = codes "https://vk.com/call/join/x"

abbrev provider : Bytes → ℕ → Result Bytes Credentials
provider hint stream_id = ok turn_creds

abbrev broken : Bytes → ℕ → Result Bytes Credentials
broken hint stream_id = err (codes "down")

-- Stream 1 fetches at second 1000; the entry is served until second 1240.
abbrev used : Cache
used = record {
  streams_per_cred = 4;
  entries = (0, 0) ∷ [];
  heap = fill new_entry link (1000 * second) turn_creds ∷ [];
}

used-IsWellFormed : IsWellFormed used
used-IsWellFormed = omega arith

fetch_first :
    get fresh link 1 none (999 * second) (1000 * second) (some provider) ≡ (used, ok turn_creds)
unfolding get equal
fetch_first = refl

new_cache_negative : new_cache (span 0) ≡ fresh
unfolding new_cache
new_cache_negative = refl

auth_text : is_auth_error (some (codes "turn allocate: 401 Unauthorized")) ≡ true
unfolding is_auth_error
auth_text = refl

get-Does_example :
    Does fresh 0
      (fill new_entry link 1000 turn_creds)
      (ok turn_creds)
      (get fresh link 1 none 999 1000 (some provider))
unfolding lookup equal
get-Does_example = get-Does fresh link 1 none 999 1000 provider fresh-IsWellFormed

handle_auth_error-Updates_example : (handle_auth_error fresh 1 50).1 ≡ (auth_error new_entry 50).1
unfolding lookup
handle_auth_error-Updates_example = (handle_auth_error-Updates fresh 1 50 fresh-IsWellFormed).0

get_hit_example :
    (get
      (get fresh link 1 none (999 * second) (1000 * second) (some provider)).0
      link
      2
      none
      (1239 * second)
      (1239 * second)
      (some broken)).1
    ≡ ok turn_creds
unfolding lookup get equal lifetime_of margin_of
get_hit_example =
    (get_hit fresh link 1 none (999 * second) (1000 * second) provider turn_creds 2 (1239 * second)
      (1239 * second) none broken fresh-IsWellFormed refl refl refl (omega arith)).0

get_expired_runs :
    (get used link 2 none (1240 * second) (1241 * second) (some broken)).1
    ≡ err (GetError.fetch_failed (codes "down"))
unfolding lookup lifetime_of margin_of
get_expired_runs =
    get_expired used link 2 (1240 * second) (1241 * second) broken used-IsWellFormed (omega arith)

-- Errors at seconds 100, 110 and 120: the first and the last are twenty seconds apart.
burst-Close_example : (burst used 3 (100 ∷ 110 ∷ 120 ∷ [])).1 ≡ 1
unfolding lookup
burst-Close_example = burst-Close used 3 100 (110 ∷ 120 ∷ []) used-IsWellFormed refl (omega arith)

errors_apart : (burst used 3 (100 ∷ 111 ∷ 122 ∷ [])).1 ≡ 0
unfolding lookup
errors_apart = burst-Apart used 3 (100 ∷ 111 ∷ 122 ∷ []) used-IsWellFormed (omega arith)

-- Two errors have been counted.
abbrev suspect : Cache
suspect = record used {
  heap =
      record (fill new_entry link 1000 turn_creds) { error_count = 2; last_error_time = 100 } ∷ [];
}

get_after_errors :
    (get (handle_auth_error suspect 1 105).0 link 0 none 1001 1002 (some provider)).1
    ≡ ok turn_creds
unfolding handle_auth_error lookup
get_after_errors =
    get-handle_auth_error suspect 1 105 link 0 1001 1002 provider (omega arith) refl refl

-- While stream 1 waits for its provider the cache is emptied, and stream 2 fetches.
invalidate_all_orphans_example :
    seen
      (store
        (run (invalidate_all (get_entry fresh 1).0) (gets link 2 none 5 6 (some provider) ∷ []))
        (get_entry fresh 1).1
        (fill new_entry link 7 turn_creds))
      0
    ≡ seen
        (run (invalidate_all (get_entry fresh 1).0) (gets link 2 none 5 6 (some provider) ∷ []))
        0
invalidate_all_orphans_example =
    invalidate_all_orphans fresh 1 (gets link 2 none 5 6 (some provider) ∷ [])
      (fill new_entry link 7 turn_creds) 0 fresh-IsWellFormed
