-- ===== src/Routers/Media/Video.antt =====
-- The video of a message, from its announcement to the request for it.
use mathlib.Core.List.{append_assoc}
use mathlib.Core.Path.{subst}
use yeoun_ai.Base.{
  ◌+◌, ◌≤◌, ◌≡◌, refl, sym, ap, ◌∙◌, true, false, Option, some, List, [], ◌∷◌, ◌++◌, arith, nat_eq,
  list_eq, length, All, All-append,
}
use yeoun_ai.Base.Text.{Text, codes}
use yeoun_ai.Base.Uuid.{Uuid, str_uuid, NotSlash}
use yeoun_ai.Base.Exec.{Result, ok}
use yeoun_ai.Fs.{FilePath, File, exists, get_file}
use yeoun_ai.Fs.Nodes.{NoDir, exists-HasFile}
use yeoun_ai.Storage.Resolve.{IsName, safe_resolve, safe_resolve_names}
use yeoun_ai.Storage.Removal.{IsName-str_uuid}
use yeoun_ai.Sessions
use yeoun_ai.Sessions.{SessionState, SessionStore}
use yeoun_ai.Pipeline.{Env}
use yeoun_ai.Conversation.{Turn}
use yeoun_ai.Conversation.Media.{mp4_path}
use yeoun_ai.Conversation.Message.{message_id, process_message}
use yeoun_ai.Conversation.Guards.{answers}
use yeoun_ai.Conversation.Files.{FilesFit, announces_media, no_answer, process_message-FilesFit}
use yeoun_ai.Routers.{App, Host}
use yeoun_ai.Routers.Media.{
  Streaming, stream_response, stream_file, send, media_parts, media_in, get_session_media,
}
use yeoun_ai.Routers.Media.Ready.{IsPlain, some_of_is_some}

-- A name stays one plain component under the suffix of a video.
IsName-mp4 : (t : Text) → IsName t → IsName (t ++ codes ".mp4")
unfolding nat_eq list_eq
IsName-mp4 [] h = record {
  no_slash = (refl, (refl, (refl, (refl, tt))));
  nonempty = refl;
  not_dot = refl;
  not_dots = refl;
}
IsName-mp4 (c ∷ []) h = record {
  no_slash = (h.no_slash.0, (refl, (refl, (refl, (refl, tt)))));
  nonempty = refl;
  not_dot = ground arith;
  not_dots = ground arith;
}
IsName-mp4 (c ∷ d ∷ []) h = record {
  no_slash = (h.no_slash.0, (h.no_slash.1.0, (refl, (refl, (refl, (refl, tt))))));
  nonempty = refl;
  not_dot = ground arith;
  not_dots = ground arith;
}
IsName-mp4 (c ∷ d ∷ e ∷ t) h = record {
  no_slash =
      All-append NotSlash (c ∷ d ∷ e ∷ t) (codes ".mp4") h.no_slash
        (refl, (refl, (refl, (refl, tt))));
  nonempty = refl;
  not_dot = ground arith;
  not_dots = ground arith;
}

IsName-speak : IsName (codes "speak")
unfolding nat_eq list_eq
IsName-speak = record {
  no_slash = (refl, (refl, (refl, (refl, (refl, tt)))));
  nonempty = refl;
  not_dot = refl;
  not_dots = refl;
}

module _ (host : Host) (plain : IsPlain host) (session : SessionState) (mid : Uuid) where
  parts-IsName : All IsName (media_parts host session session.session_id mid)
  parts-IsName = (
    IsName-str_uuid session.persona_id,
    (
      IsName-speak,
      (IsName-str_uuid session.session_id, (IsName-mp4 (str_uuid mid) (IsName-str_uuid mid), tt)),
    ),
  )

  mp4_path_lem :
      (env : Env)
      → env.persona_dir ≡ host.settings.persona_dir
      → mp4_path env session mid
        ≡ host.settings.persona_dir ++ media_parts host session session.session_id mid
  mp4_path_lem env same =
      let d = env.persona_dir in
      let u : List Text = str_uuid session.persona_id ∷ [] in
      let s : List Text = codes "speak" ∷ str_uuid session.session_id ∷ [] in
      let n : List Text = (str_uuid mid ++ codes ".mp4") ∷ [] in
      append_assoc (d ++ u) s n
      ∙ append_assoc d u (s ++ n)
      ∙ ap (λ (p : FilePath). p ++ media_parts host session session.session_id mid) same

  resolved :
      (env : Env)
      → env.persona_dir ≡ host.settings.persona_dir
      → length host.settings.persona_dir + 4 ≤ host.fuel
      → safe_resolve host.readlink host.fuel host.settings.persona_dir
          (media_parts host session session.session_id mid)
        ≡ ok (mp4_path env session mid)
  resolved env same steps =
      safe_resolve_names host.readlink plain.no_links host.fuel host.settings.persona_dir
        (media_parts host session session.session_id mid) plain.names parts-IsName steps
      ∙ sym (ap ok (mp4_path_lem env same))

  -- The session that the store holds is one of the same persona.
  get_session_media_run :
      (env : Env) (held : SessionState) (store : SessionStore) (range_header : Option Text)
      (app : App)
      → env.persona_dir ≡ host.settings.persona_dir
      → length host.settings.persona_dir + 4 ≤ host.fuel
      → app.session_store ≡ some store
      → Sessions.get store session.session_id ≡ some held
      → held.persona_id ≡ session.persona_id
      → get_session_media host session.session_id mid range_header app
        ≡ (stream_file (get_file app.fs (mp4_path env session mid)) range_header, app)
  unfolding get_session_media
  get_session_media_run env held store range_header app same steps opened found persona =
      ap (λ o. media_in host session.session_id mid range_header o app) opened
      ∙ rw (found, persona)
          (ap (λ (p : Result FilePath). send p range_header app) (resolved env same steps))

-- On a host without symbolic links, with a persona directory of plain names, which the pipeline works
-- in as well, and fuel for a path below it: if a message ends by itself with an answer and a
-- `media_ready`, no directory has the path of its video, and the store holds a session of the same
-- persona under the id of the session, then a request for the video, with any Range header, is
-- answered with the content of the file that the message has made.
pub process_message-IsServed :
    (host : Host) (env : Env) (audio_path : FilePath) (t : Turn) (app : App) (held : SessionState)
    (store : SessionStore) (range_header : Option Text)
    → IsPlain host
    → env.persona_dir ≡ host.settings.persona_dir
    → length host.settings.persona_dir + 4 ≤ host.fuel
    → (process_message env audio_path t).ending ≡ ok tt
    → no_answer (answers (process_message env audio_path t).events) ≡ false
    → announces_media (process_message env audio_path t).events ≡ true
    → app.fs ≡ (process_message env audio_path t).turn.fs
    → NoDir (mp4_path env t.session (message_id env audio_path)) app.fs
    → app.session_store ≡ some store
    → Sessions.get store t.session.session_id ≡ some held
    → held.persona_id ≡ t.session.persona_id
    → (f : File) × (get_file app.fs (mp4_path env t.session (message_id env audio_path)) ≡ some f)
      × ((get_session_media host t.session.session_id
            (message_id env audio_path)
            range_header
            app).0
          ≡ stream_response f.content range_header)
process_message-IsServed host env audio_path t app held store range_header plain same steps ended
      answered announced same_fs no_dir opened found persona =
    let mid = message_id env audio_path in
    let p = mp4_path env t.session mid in
    let fit =
      subst (λ b. FilesFit env audio_path t.session b (process_message env audio_path t).turn.fs)
        announced (process_message-FilesFit env audio_path t ended answered) in
    let there = ap (λ fs. exists fs p) same_fs ∙ fit.0 in
    let (f, ef) = some_of_is_some (get_file app.fs p) (exists-HasFile p app.fs there no_dir) in
    (
      f,
      ef,
      ap (λ (m : Result Streaming × App). m.0)
            (get_session_media_run host plain t.session mid env held store range_header app same
              steps opened found persona)
          ∙ ap (λ (o : Option File). stream_file o range_header) ef,
    )
