-- ===== src/Governance/ReplayStore.antt =====
-- src/governance/replay_store.py: `InMemoryDPoPReplayStore`. Times are in microseconds.
use aegis_os.Prelude.{
  ℕ, ◌+◌, ◌*◌, String, ◌≡◌, refl, ap, ◌∙◌, ◌↔◌, ◌&&◌, Bool, true, false, Option, none, some, arith,
  leb, ltb, ◌==◌, if◌then◌else◌, string_eq,
}
use aegis_os.Dict.{Dict, get, put, purge, get-put, get-purge, is_some, holds}

abbrev pub micros : ℕ → ℕ
micros seconds = seconds * 1000000

abbrev pub Entries : Type 0
Entries = Dict String ℕ

-- The entries that have not expired at `now`.
unfoldable pub live : ℕ → Entries → Entries
live now = purge (λ expires_at. leb expires_at now)

-- `register_if_unused`: `false` on a replay.
unfoldable pub register_if_unused : String → ℕ → ℕ → Entries → Entries × Bool
unfolding live
register_if_unused jti ttl_seconds now entries =
    let kept = live now entries in
    if is_some (get kept jti)
    then (kept, false)
    else (put kept jti (now + micros ttl_seconds), true)

pub get-live :
    (now : ℕ) (entries : Entries) (jti : String)
    → get (live now entries) jti
      ≡ (if holds (λ t. leb t now) (get entries jti) then none else get entries jti)
unfolding live
get-live now entries jti = get-purge (λ t. leb t now) entries jti

-- Is there an entry for the id that has not expired?
abbrev pub is_live : ℕ → Option ℕ → Bool
is_live now none = false
is_live now (some expires_at) = ltb now expires_at

is_some-live :
    (now : ℕ) (entries : Entries) (jti : String)
    → is_some (get (live now entries) jti) ≡ is_live now (get entries jti)
is_some-live now entries jti = ground (arith, get-live now entries jti)

fresh_iff :
    (jti : String) (ttl_seconds now : ℕ) (entries : Entries)
    → ((register_if_unused jti ttl_seconds now entries).1 ≡ true)
      ↔ (is_live now (get entries jti) ≡ false)
unfolding register_if_unused
fresh_iff jti ttl_seconds now entries = ground (arith, is_some-live now entries jti)

get-register :
    (jti j : String) (ttl_seconds now : ℕ) (entries : Entries) (kept : Option ℕ)
    → get (live now entries) jti ≡ kept
    → let (entries', fresh) = register_if_unused jti ttl_seconds now entries in
      get entries' j ≡ (
        if fresh && (jti == j)
        then some (now + micros ttl_seconds)
        else if holds (λ t. leb t now) (get entries j)
        then none
        else get entries j)
unfolding register_if_unused
get-register jti j ttl_seconds now entries none h = rw h (
    get-put (live now entries) jti j (now + micros ttl_seconds)
    ∙ ap (λ (o : Option ℕ). if jti == j then some (now + micros ttl_seconds) else o)
        (get-live now entries j))
get-register jti j ttl_seconds now entries (some t) h = rw h (get-live now entries j)

-- An id is accepted exactly if it has no entry, or one that has expired; then its entry expires
-- after the lifetime, and every other entry is kept until its own time.
pub register_if_unused_lem :
    (jti j : String) (ttl_seconds now : ℕ) (entries : Entries)
    → let (entries', fresh) = register_if_unused jti ttl_seconds now entries in
      ((fresh ≡ true) ↔ (is_live now (get entries jti) ≡ false))
      × (get entries' j ≡ (
          if fresh && (jti == j)
          then some (now + micros ttl_seconds)
          else if holds (λ t. leb t now) (get entries j)
          then none
          else get entries j))
unfolding register_if_unused
register_if_unused_lem jti j ttl_seconds now entries = (
  (fresh_iff jti ttl_seconds now entries),
  get-register jti j ttl_seconds now entries (get (live now entries) jti) refl,
)
