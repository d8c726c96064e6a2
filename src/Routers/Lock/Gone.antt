-- ===== src/Routers/Lock/Gone.antt =====
-- What is left of a session that has ended, under its lock.
use mathlib.Core.Path.{subst}
use mathlib.Core.Bool.{true≢false}
use yeoun_ai.Base.{
  ◌⊎◌, inl, inr, false, ◌≡◌, refl, sym, ap, ◌∙◌, true, Option, none, some, is_some, List, [], ◌∷◌,
  ◌++◌, arith, nat_eq, list_eq, All,
}
use yeoun_ai.Base.Text.{starts_with}
use yeoun_ai.Base.Uuid.{Uuid}
use yeoun_ai.Base.Dict
use yeoun_ai.Fs.{FilePath}
use yeoun_ai.Models.Registry.{ModelRegistry}
use yeoun_ai.Sessions
use yeoun_ai.Sessions.{SessionState, SessionStore}
use yeoun_ai.Routers.{App, Host}
use yeoun_ai.Routers.Lifetime.{service_state, end_in, end_session}
use yeoun_ai.Routers.Lifetime.End.{session_in}
use yeoun_ai.Routers.Lock.{
  Request, message, ending, Room, forget_in, perform, Step, finds, waits, leaves, takes_turn,
  gives_up, expires, elsewhere, removes, Reach, here, next, is_removal, NoRemoval,
}

abbrev pub IsEnding : Request → Type 0
IsEnding (message env audio_path) = ⊥
IsEnding ending = Unit

All-without :
    (before after : List Request) (q : Request)
    → All IsEnding (before ++ (q ∷ after))
    → All IsEnding (before ++ after)
All-without [] after q h = h.1
All-without (b ∷ before) after q h = (h.0, All-without before after q h.1)

All-end :
    (queue : List Request) (q : Request)
    → All IsEnding queue
    → IsEnding q
    → All IsEnding (queue ++ (q ∷ []))
All-end [] q h k = (k, tt)
All-end (b ∷ queue) q h k = (h.0, All-end queue q h.1 k)

All-middle :
    (before after : List Request) (q : Request) → All IsEnding (before ++ (q ∷ after)) → IsEnding q
All-middle [] after q h = h.0
All-middle (b ∷ before) after q h = All-middle before after q h.1

session_in-forget_in :
    (sid : Uuid) (store : Option SessionStore) → session_in (forget_in sid store) sid ≡ none
unfolding Sessions.get Sessions.end_session
session_in-forget_in sid none = refl
session_in-forget_in sid (some store) = ground (arith, Dict.lookup-erase sid sid store.sessions)

module _ (host : Host) (sid : Uuid) where
  -- An end that finds no session changes nothing.
  end_in_absent :
      (registry : Option ModelRegistry) (store : Option SessionStore) (app : App)
      → session_in store sid ≡ none
      → (end_in host sid (service_state registry store) app).1 ≡ app
  unfolding Sessions.get Sessions.end_session
  end_in_absent none store app h = refl
  end_in_absent (some registry) none app h = refl
  end_in_absent (some registry) (some store) app h = rw h

  end_session_absent :
      (app : App) → session_in app.session_store sid ≡ none → (end_session host sid app).1 ≡ app
  unfolding end_session
  end_session_absent app h = end_in_absent app.registry app.session_store app h

  -- The session is out of the store, and no message waits for its lock or has yet to.
  abbrev pub IsClosed : Room → Type 0
  IsClosed r =
      (session_in r.app.session_store sid ≡ none) × All IsEnding r.queue × All IsEnding r.found

  module _ (dir : FilePath) where
    -- The same files below the directory.
    abbrev pub SameFiles : Room → Room → Type 0
    SameFiles r s =
        (p : FilePath) → starts_with p dir ≡ true → Dict.lookup p s.app.fs ≡ Dict.lookup p r.app.fs

    -- No other files below the directory.
    abbrev pub NoNewFiles : Room → Room → Type 0
    NoNewFiles r s =
        (p : FilePath)
        → starts_with p dir ≡ true
        → (Dict.lookup p s.app.fs ≡ Dict.lookup p r.app.fs) ⊎ (Dict.lookup p s.app.fs ≡ none)

    turn-IsClosed :
        (r : Room) (q : Request) (rest : List Request)
        → session_in r.app.session_store sid ≡ none
        → All IsEnding (q ∷ rest)
        → All IsEnding r.found
        → IsClosed (perform host sid q (record r { queue = rest }))
          × SameFiles r (perform host sid q (record r { queue = rest }))
    unfolding perform
    turn-IsClosed r (message env audio_path) rest h k f = absurd k.0
    turn-IsClosed r ending rest h k f =
        let e = end_session_absent r.app h in
        (
          (ap (λ (a : App). session_in a.session_store sid) e ∙ h, k.1, f),
          λ p b. ap (λ (a : App). Dict.lookup p a.fs) e,
        )

    -- A closed room stays closed, and no step but a removal changes a file below its directory.
    Step-SameFiles :
        {r t : Room} (step : Step host sid dir r t)
        → is_removal host sid step ≡ false
        → IsClosed r
        → IsClosed t × SameFiles r t
    Step-SameFiles (finds r q listed) n c = absurd (true≢false (sym listed ∙ ap is_some c.0))
    Step-SameFiles (waits r q before after e) n c =
        let found = subst (All IsEnding) e c.2 in
        (
          (
            c.0,
            All-end r.queue q c.1 (All-middle before after q found),
            All-without before after q found,
          ),
          λ p b. refl,
        )
    Step-SameFiles (leaves r q before after e) n c =
        ((c.0, c.1, All-without before after q (subst (All IsEnding) e c.2)), λ p b. refl)
    Step-SameFiles (takes_turn r q rest e) n c =
        turn-IsClosed r q rest c.0 (subst (All IsEnding) e c.1) c.2
    Step-SameFiles (gives_up r q before after e) n c =
        ((c.0, All-without before after q (subst (All IsEnding) e c.1), c.2), λ p b. refl)
    Step-SameFiles (expires r) n c =
        ((session_in-forget_in sid r.app.session_store, c.1, c.2), λ p b. refl)
    Step-SameFiles (elsewhere r app e files) n c = ((e ∙ c.0, c.1, c.2), files)
    Step-SameFiles (removes r app e files) n c = cc

    keeps :
        {r t : Room} (step : Step host sid dir r t)
        → is_removal host sid step ≡ false
        → IsClosed r
        → IsClosed t × NoNewFiles r t
    keeps step n c = let s = Step-SameFiles step n c in (s.0, λ p b. inl (s.1 p b))

    -- A removal leaves a closed room closed as well.
    Step-NoNewFiles :
        {r t : Room} → Step host sid dir r t → IsClosed r → IsClosed t × NoNewFiles r t
    Step-NoNewFiles (removes r app e files) c = ((e ∙ c.0, c.1, c.2), files)
    Step-NoNewFiles (finds r q listed) c = keeps (finds r q listed) refl c
    Step-NoNewFiles (waits r q before after e) c = keeps (waits r q before after e) refl c
    Step-NoNewFiles (leaves r q before after e) c = keeps (leaves r q before after e) refl c
    Step-NoNewFiles (takes_turn r q rest e) c = keeps (takes_turn r q rest e) refl c
    Step-NoNewFiles (gives_up r q before after e) c = keeps (gives_up r q before after e) refl c
    Step-NoNewFiles (expires r) c = keeps (expires r) refl c
    Step-NoNewFiles (elsewhere r app e files) c = keeps (elsewhere r app e files) refl c

    pub Reach-SameFiles :
        {r t : Room} (reach : Reach host sid dir r t)
        → NoRemoval host sid reach
        → IsClosed r
        → IsClosed t × SameFiles r t
    Reach-SameFiles here n c = (c, λ p b. refl)
    Reach-SameFiles (next reach step) n c =
        let before = Reach-SameFiles reach n.1 c in
        let after = Step-SameFiles step n.0 before.0 in (after.0, λ p b. after.1 p b ∙ before.1 p b)

    pub Reach-NoNewFiles :
        {r t : Room} → Reach host sid dir r t → IsClosed r → IsClosed t × NoNewFiles r t
    Reach-NoNewFiles here c = (c, λ p b. inl refl)
    Reach-NoNewFiles (next reach step) c =
        let before = Reach-NoNewFiles reach c in
        let after = Step-NoNewFiles step before.0 in
        (
          after.0,
          λ p b. elim (after.1 p b) [
            | inr gone ↦ inr gone
            | inl same ↦ elim (before.1 p b) [
              | inl same' ↦ inl (same ∙ same')
              | inr gone ↦ inr (same ∙ gone)
            ]
          ],
        )
