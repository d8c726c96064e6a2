-- ===== src/Routers/Lock/Ends.antt =====
-- An end with and without a message behind it.
use mathlib.Core.Path.{subst}
use mathlib.Core.List.{append_assoc}
use yeoun_ai.Base.{
  inl, inr, ◌≡◌, refl, sym, ap, ◌∙◌, true, false, Option, none, some, is_some, List, [], ◌∷◌, ◌++◌,
  arith, nat_eq, list_eq, All,
}
use yeoun_ai.Base.Text.{Text, codes, starts_with, starts_with-append}
use yeoun_ai.Base.Uuid.{Uuid, str_uuid}
use yeoun_ai.Base.Dict
use yeoun_ai.Base.Exec.{ok}
use yeoun_ai.Fs.{FilePath, Fs, exists, unlink}
use yeoun_ai.Fs.Nodes.{ne_outside}
use yeoun_ai.Models.Registry.{ModelRegistry}
use yeoun_ai.Sessions
use yeoun_ai.Sessions.{SessionState, SessionStore}
use yeoun_ai.Pipeline.{Env}
use yeoun_ai.Conversation.{Run}
use yeoun_ai.Conversation.Media.{mp4_path}
use yeoun_ai.Conversation.Message.{process_message}
use yeoun_ai.Conversation.Guards.{answers}
use yeoun_ai.Conversation.Cleanup.{exists-unlink}
use yeoun_ai.Conversation.Files.{FilesFit, announces_media, no_answer, process_message-FilesFit}
use yeoun_ai.Routers.{App, Host}
use yeoun_ai.Routers.Lifetime.{end_session}
use yeoun_ai.Routers.Lifetime.End.{session_in, media_of, Ended, end_session-Ended}
use yeoun_ai.Routers.Lock.{
  Request, message, ending, Room, update_in, run_message, perform, Reach, NoRemoval,
}
use yeoun_ai.Routers.Lock.Gone.{IsEnding, Reach-SameFiles, Reach-NoNewFiles}

module _ (host : Host) (sid : Uuid) (registry : ModelRegistry) (store : SessionStore) (r : Room)
    (has_registry : r.app.registry ≡ some registry) (has_store : r.app.session_store ≡ some store)
    (listed : Sessions.get store sid ≡ some r.session) where
  abbrev dir : FilePath
  dir = media_of host r.session sid

  -- The room when the end has left the lock to those behind it.
  abbrev ended : List Request → Room
  ended rest = perform host sid ending (record r { queue = rest })

  perform_ending : (rest : List Request) → (ended rest).app ≡ (end_session host sid r.app).1
  unfolding perform
  perform_ending rest = refl

  after_end : Ended host sid r.session r.app (end_session host sid r.app).1
  after_end =
      (end_session-Ended host sid r.app registry store r.session has_registry has_store listed).1

  ended_unlisted : (rest : List Request) → session_in (ended rest).app.session_store sid ≡ none
  ended_unlisted rest =
      ap (λ (a : App). session_in a.session_store sid) (perform_ending rest)
      ∙ ground (arith, after_end.sessions sid)

  ended_empty :
      (rest : List Request) (p : FilePath)
      → exists r.app.fs dir ≡ true
      → host.rmtree_ok ≡ true
      → starts_with p dir ≡ true
      → Dict.lookup p (ended rest).app.fs ≡ none
  ended_empty rest p there deletes below =
      ap (λ (a : App). Dict.lookup p a.fs) (perform_ending rest) ∙ ground (arith, after_end.files p)

  quiet_queue : (rest : List Request) → All IsEnding rest → All IsEnding (ended rest).queue
  unfolding perform
  quiet_queue rest quiet = quiet

  quiet_found : (rest : List Request) → All IsEnding r.found → All IsEnding (ended rest).found
  unfolding perform
  quiet_found rest quiet = quiet

  -- When a session that is there is ended, with no message behind the end in the queue of its lock and
  -- none that has found the session and has yet to wait, its directory there and removable, then
  -- whatever happens next the session stays away and nothing comes back below its directory.
  pub end_session-IsForgotten :
      (rest : List Request) (s : Room)
      → exists r.app.fs dir ≡ true
      → host.rmtree_ok ≡ true
      → All IsEnding rest
      → All IsEnding r.found
      → Reach host sid dir (ended rest) s
      → (session_in s.app.session_store sid ≡ none)
        × ((p : FilePath) → starts_with p dir ≡ true → Dict.lookup p s.app.fs ≡ none)
  end_session-IsForgotten rest s there deletes quiet found reach =
      let closed =
        Reach-NoNewFiles host sid dir reach
          (ended_unlisted rest, quiet_queue rest quiet, quiet_found rest found) in
      (
        closed.0.0,
        λ p below. elim (closed.1 p below) [
          | inl same ↦ same ∙ ended_empty rest p there deletes below
          | inr gone ↦ gone
        ],
      )

module _ (host : Host) (sid : Uuid) (env : Env) (audio_path : FilePath) (r : Room) where
  -- The message on a room whose session is gone.
  abbrev pub late_run : Run
  late_run =
      process_message env audio_path (record { session = r.session; fs = r.app.fs; db = r.app.db })

  abbrev pub late_room : List Request → Room
  late_room rest = perform host sid (message env audio_path) (record r { queue = rest })

  session_in-update_in :
      (session : SessionState) (store : Option SessionStore)
      → session_in store sid ≡ none
      → session_in (update_in sid session store) sid ≡ none
  unfolding Sessions.get Sessions.update
  session_in-update_in session none h = refl
  session_in-update_in session (some store) h = rw (h, Sessions.update) h

  late_unlisted :
      (rest : List Request)
      → session_in r.app.session_store sid ≡ none
      → session_in (late_room rest).app.session_store sid ≡ none
  unfolding perform run_message
  late_unlisted rest h = session_in-update_in late_run.turn.session r.app.session_store h

  late_files : (rest : List Request) → (late_room rest).app.fs ≡ unlink audio_path late_run.turn.fs
  unfolding perform run_message
  late_files rest = refl

  late_queue : (rest : List Request) → (late_room rest).queue ≡ rest
  unfolding perform run_message
  late_queue rest = refl

  late_found : (rest : List Request) → (late_room rest).found ≡ r.found
  unfolding perform run_message
  late_found rest = refl

  mp4_below :
      env.persona_dir ≡ host.settings.persona_dir
      → r.session.session_id ≡ sid
      → starts_with (mp4_path env r.session (env.fresh 0)) (media_of host r.session sid) ≡ true
  mp4_below same is_sid =
      let name : List Text = (str_uuid (env.fresh 0) ++ codes ".mp4") ∷ [] in
      let here : FilePath =
        env.persona_dir ++ (str_uuid r.session.persona_id ∷ codes "speak" ∷ str_uuid sid ∷ []) in
      let path : mp4_path env r.session (env.fresh 0) ≡ here ++ name =
        ap
          (λ (u : Uuid).
            ((env.persona_dir ++ (str_uuid r.session.persona_id ∷ []))
              ++ (codes "speak" ∷ str_uuid u ∷ []))
            ++ name)
          is_sid
        ∙ ap (λ (d : FilePath). d ++ name)
            (append_assoc env.persona_dir (str_uuid r.session.persona_id ∷ [])
              (codes "speak" ∷ str_uuid sid ∷ [])) in
      ap (λ (p : FilePath). starts_with p (media_of host r.session sid)) path
      ∙ ap
          (λ (d : FilePath).
            starts_with (here ++ name)
              (d ++ (str_uuid r.session.persona_id ∷ codes "speak" ∷ str_uuid sid ∷ [])))
          (sym same)
      ∙ starts_with-append here name

  -- A message that waited while its session was ended still runs when it gets the lock. If it ends
  -- by itself with an answer and a `media_ready`, its audio lies elsewhere, and no other message waits
  -- or has yet to, its video is there from then on, in the directory of a session that is no longer in
  -- the store, whatever happens next but the deletion of the persona.
  pub late_message-LeavesVideo :
      (rest : List Request) (s : Room)
      → session_in r.app.session_store sid ≡ none
      → r.session.session_id ≡ sid
      → env.persona_dir ≡ host.settings.persona_dir
      → starts_with audio_path (media_of host r.session sid) ≡ false
      → All IsEnding rest
      → All IsEnding r.found
      → late_run.ending ≡ ok tt
      → no_answer (answers late_run.events) ≡ false
      → announces_media late_run.events ≡ true
      → (reach : Reach host sid (media_of host r.session sid) (late_room rest) s)
      → NoRemoval host sid reach
      → (session_in s.app.session_store sid ≡ none)
        × (exists s.app.fs (mp4_path env r.session (env.fresh 0)) ≡ true)
  late_message-LeavesVideo rest s gone is_sid same audio quiet found ends answers_ announces reach
        no_removal =
      let dir : FilePath = media_of host r.session sid in
      let mp4 : FilePath = mp4_path env r.session (env.fresh 0) in
      let below = mp4_below same is_sid in
      let closed = Reach-SameFiles host sid dir reach no_removal (
        late_unlisted rest gone,
        subst (All IsEnding) (sym (late_queue rest)) quiet,
        subst (All IsEnding) (sym (late_found rest)) found,
      ) in
      let fits =
        process_message-FilesFit env audio_path
          (record { session = r.session; fs = r.app.fs; db = r.app.db }) ends answers_ in
      let made : exists late_run.turn.fs mp4 ≡ true =
        (subst (λ b. FilesFit env audio_path r.session b late_run.turn.fs) announces fits).0 in
      (
        closed.0.0,
        ap is_some (closed.1 mp4 below)
            ∙ ap (λ (fs : Fs). exists fs mp4) (late_files rest)
            ∙ exists-unlink audio_path mp4 late_run.turn.fs
                (ne_outside audio_path mp4 dir below audio)
            ∙ made,
      )
