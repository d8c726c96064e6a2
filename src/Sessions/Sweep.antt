-- ===== src/Sessions/Sweep.antt =====
-- `_sweep_once` takes exactly the expired sessions.
use yeoun_ai.Base.{
  ℕ, ◌+◌, ◌≡◌, refl, Bool, false, Option, none, some, List, [], ◌∷◌, arith, if◌then◌else◌, length,
  contains, nat_eq,
}
use yeoun_ai.Base.Uuid.{Uuid}
use yeoun_ai.Base.Dict
use yeoun_ai.Base.Dict.{Dict}
use yeoun_ai.Sessions.{
  SessionState, SessionStore, get, count, is_expired, expired_ids, delete_ids, sweep_once,
}

abbrev Table : Type 0
Table = Dict Uuid SessionState

-- A session without the expired ones.
abbrev pub alive : ℕ → ℕ → Option SessionState → Option SessionState
alive ttl now none = none
alive ttl now (some session) = if is_expired ttl now session then none else some session

lookup-delete_ids :
    (ids : List Uuid) (sid : Uuid) (d : Table)
    → Dict.lookup sid (delete_ids ids d) ≡ (if contains ids sid then none else Dict.lookup sid d)
unfolding delete_ids
lookup-delete_ids [] sid d = refl
lookup-delete_ids (j ∷ ids) sid d =
    ground (arith, lookup-delete_ids ids sid (Dict.erase j d), Dict.lookup-erase sid j d)

abbrev was_expired : ℕ → ℕ → Option SessionState → Bool
was_expired ttl now none = false
was_expired ttl now (some session) = is_expired ttl now session

contains-expired_ids :
    (ttl now : ℕ) (sid : Uuid) (d : Table)
    → Dict.NodupKeys d
    → contains (expired_ids ttl now d) sid ≡ was_expired ttl now (Dict.lookup sid d)
unfolding expired_ids Dict.lookup
contains-expired_ids ttl now sid [] _ = refl
contains-expired_ids ttl now sid ((k, s) ∷ d) (fresh, u) =
    ground (arith, contains-expired_ids ttl now sid d u)

erase-delete_ids_head :
    (ids : List Uuid) (k : Uuid) (s : SessionState) (d : Table)
    → delete_ids ids ((k, s) ∷ d)
      ≡ (if contains ids k then delete_ids ids d else (k, s) ∷ delete_ids ids d)
unfolding delete_ids Dict.erase
erase-delete_ids_head [] k s d = refl
erase-delete_ids_head (j ∷ ids) k s d =
    ground (arith, erase-delete_ids_head ids k s (Dict.erase j d))

delete_ids_expired_head :
    (ids : List Uuid) (k : Uuid) (s : SessionState) (d : Table)
    → Dict.lookup k d ≡ none
    → delete_ids (k ∷ ids) ((k, s) ∷ d) ≡ delete_ids ids d
unfolding delete_ids Dict.erase
delete_ids_expired_head ids k s d fresh = ground (arith, Dict.erase_absent k d fresh)

length-delete_ids :
    (ttl now : ℕ) (d : Table)
    → Dict.NodupKeys d
    → length (delete_ids (expired_ids ttl now d) d) + length (expired_ids ttl now d) ≡ length d
unfolding expired_ids
length-delete_ids ttl now [] _ = unfold delete_ids in refl
length-delete_ids ttl now ((k, s) ∷ d) (fresh, u) = ground (
  arith,
  length-delete_ids ttl now d u,
  erase-delete_ids_head (expired_ids ttl now d) k s d,
  contains-expired_ids ttl now k d u,
  delete_ids_expired_head (expired_ids ttl now d) k s d fresh,
)

-- After a sweep a session is there exactly if it was there and was active within the last `ttl`
-- ticks, and it is unchanged. What the sweep returns is by how many sessions the store has shrunk.
pub sweep_once_lem :
    (s : SessionStore) (now : ℕ)
    → Dict.NodupKeys s.sessions
    → ((sid : Uuid) → get (sweep_once now s).1 sid ≡ alive s.ttl now (get s sid))
      × (count (sweep_once now s).1 + (sweep_once now s).0 ≡ count s)
unfolding sweep_once get count
sweep_once_lem s now u = (
  λ sid. ground (
    arith,
    lookup-delete_ids (expired_ids s.ttl now s.sessions) sid s.sessions,
    contains-expired_ids s.ttl now sid s.sessions u,
  ),
  length-delete_ids s.ttl now s.sessions u,
)

pub NodupKeys-delete_ids :
    (ids : List Uuid) (d : Table) → Dict.NodupKeys d → Dict.NodupKeys (delete_ids ids d)
unfolding delete_ids
NodupKeys-delete_ids [] d u = u
NodupKeys-delete_ids (sid ∷ ids) d u =
    NodupKeys-delete_ids ids (Dict.erase sid d) (Dict.erase-NodupKeys sid d u)
